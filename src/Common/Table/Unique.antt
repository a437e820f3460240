-- ===== src/Common/Table/Unique.antt =====
-- Tables in which a test fits one row at most, as a unique index promises.
use ndy_hub.Common.{
  ◌==◌, false, Bool, true, none, some, List, [], ◌∷◌, Bool-cases, inl, inr, ◌≤◌, ◌≡◌, refl, arith,
}
use ndy_hub.Common.Table.{find, update, count}
use ndy_hub.Common.Table.Laws.{In-find, find-In, count_mono, update-count_zero, count_zero-find}

module _ {A : Type 0} where
  -- A counted row is the one that a read with the unique test finds.
  pub count-found :
      (p q : A → Bool) (rows : List A)
      → ((r : A) → p r ≡ true → q r ≡ true)
      → count q rows ≤ 1
      → 1 ≤ count p rows
      → (r : A) × (find q rows ≡ some r) × (p r ≡ true)
  unfolding count find
  count-found p q [] h one some_row = absurd (omega (arith, some_row))
  count-found p q (x ∷ rows) h one some_row = elim (Bool-cases (q x)) [
    | inl t ↦ (x, ground (arith, t), ground (arith, t, one, some_row, count_mono p q rows h))
    | inr t ↦
        let (r, found, holds) =
          count-found p q rows h (ground (arith, t, one)) (ground (arith, t, some_row, h x)) in
        (r, ground (arith, t, found), holds)
  ]

  -- A write that takes the unique row out of the test leaves none.
  pub find-update_cleared :
      (p q : A → Bool) (f : A → A) (rows : List A) {r : A}
      → ((x : A) → p x ≡ true → q x ≡ true)
      → ((x : A) → p x ≡ true → q (f x) ≡ false)
      → count q rows ≤ 1
      → find q rows ≡ some r
      → p r ≡ true
      → find q (update p f rows) ≡ none
  unfolding count find update
  find-update_cleared p q f [] h k one found holds = refl
  find-update_cleared p q f (x ∷ rows) {r = r} h k one found holds = elim (Bool-cases (q x)) [
    | inr t ↦ ground (
      arith,
      t,
      h x,
      find-update_cleared p q f rows {r = r} h k (ground (arith, t, one)) (ground (arith, t, found))
          holds,
    )
    | inl t ↦
        let same : x ≡ r = ground (arith, t, found) in
        let rest : count q rows ≡ 0 = ground (arith, t, one) in
        let kept : update p f rows ≡ rows =
          update-count_zero p f rows (omega (arith, rest, count_mono p q rows h)) in
        ground (arith, same, holds, k x, kept, count_zero-find q rows rest)
  ]

-- A row that a read finds is counted by each test that it passes.
pub found-counted :
    {A : Type 0} (p q : A → Bool) (rows : List A) {r : A}
    → find q rows ≡ some r
    → p r ≡ true
    → (count p rows == 0) ≡ false
found-counted p q rows {r} found holds = elim (Bool-cases (count p rows == 0)) [
  | inr some_row ↦ some_row
  | inl no_row ↦ absurd (
      In-find p rows r (find-In q rows found) holds
        (count_zero-find p rows (ground (arith, no_row))))
]

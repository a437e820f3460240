-- ===== src/Common/Table/Laws.antt =====
-- What reads of a table see after its writes, and how a property of all rows is kept.
use mathlib.Core.Option
use ndy_hub.Common.Tests.{if◌then◌else◌, Bool-cases}
use ndy_hub.Common.Table.{find, update, count, delete, insert}
use Prim.Native.Nat.{◌+◌, ◌≤◌}
use mathlib.Core.Path.{◌≡◌, refl, subst}
use mathlib.Core.Logic.{◌⊎◌, ◌≢◌, inl, inr}
use mathlib.Core.Bool.{Bool, true, false}
use mathlib.Core.Option.{Option, none, some}
use mathlib.Core.List.{List, [], ◌∷◌}
use native.Mathlib.Omega.{arith}

-- Every row has the property.
abbrev pub All {ℓ} : {A : Type 0} → (A → Type ℓ) → List A → Type ℓ
All P [] = Unit
All P (r ∷ rows) = P r × All P rows

-- A row of the table.
abbrev pub In : {A : Type 0} → A → List A → Type 0
In a [] = ⊥
In a (r ∷ rows) = (a ≡ r) ⊎ In a rows

module _ {A : Type 0} (q : A → Bool) where
  pub find-In : (rows : List A) {r : A} → find q rows ≡ some r → In r rows
  unfolding find
  find-In [] e = absurd (cc)
  find-In (x ∷ rows) e = elim (Bool-cases (q x)) [
    | inl h ↦ inl (cc (rw h at e))
    | inr h ↦ inr (find-In rows (rw h at e))
  ]

  -- A read finds something wherever a row passes its test.
  pub In-find : (rows : List A) (r : A) → In r rows → q r ≡ true → find q rows ≢ none
  unfolding find
  In-find [] r i h e = absurd i
  In-find (x ∷ rows) r (inl same) h e = ground (arith, same, h)
  In-find (x ∷ rows) r (inr i) h e = ground (arith, In-find rows r i h)

  pub count_none : (rows : List A) → All (λ r. q r ≡ false) rows → count q rows ≡ 0
  unfolding count
  count_none [] h = refl
  count_none (x ∷ rows) h = ground (arith, count_none rows h.1)

  pub find_holds : (rows : List A) {r : A} → find q rows ≡ some r → q r ≡ true
  unfolding find
  find_holds [] e = cc
  find_holds (x ∷ rows) e = elim (Bool-cases (q x)) [
    | inl h ↦ ground (arith)
    | inr h ↦ find_holds rows (rw h at e)
  ]

  -- A write that keeps the test of a read changes the row in place.
  pub find-update :
      (p : A → Bool) (f : A → A) (rows : List A)
      → ((r : A) → q (f r) ≡ q r)
      → find q (update p f rows) ≡ Option.map (λ r. if p r then f r else r) (find q rows)
  unfolding find update
  find-update p f [] h = refl
  find-update p f (x ∷ rows) h = ground (arith, h x, find-update p f rows h)

  -- A write to no row that the read tests for is not seen.
  pub find-update_other :
      (p : A → Bool) (f : A → A) (rows : List A)
      → ((r : A) → q (f r) ≡ q r)
      → ((r : A) → q r ≡ true → p r ≡ false)
      → find q (update p f rows) ≡ find q rows
  unfolding find update
  find-update_other p f [] h k = refl
  find-update_other p f (x ∷ rows) h k = ground (arith, h x, k x, find-update_other p f rows h k)

  pub find-insert :
      (x : A) (rows : List A)
      → find q (insert x rows)
        ≡ elim (find q rows) [ some r ↦ some r | none ↦ if q x then some x else none ]
  unfolding find insert
  find-insert x [] = ground arith
  find-insert x (r ∷ rows) = ground (arith, find-insert x rows)

  pub count-insert :
      (x : A) (rows : List A) → count q (insert x rows) ≡ count q rows + (if q x then 1 else 0)
  unfolding count insert
  count-insert x [] = ground arith
  count-insert x (r ∷ rows) = ground (arith, count-insert x rows)

  -- A write that leaves no row it has touched in the test counts none.
  pub count-update_self :
      (f : A → A) (rows : List A)
      → ((r : A) → q r ≡ true → q (f r) ≡ false)
      → count q (update q f rows) ≡ 0
  unfolding count update
  count-update_self f [] h = refl
  count-update_self f (x ∷ rows) h = ground (arith, h x, count-update_self f rows h)

  pub count-update_le :
      (p : A → Bool) (f : A → A) (rows : List A)
      → ((r : A) → p r ≡ true → q (f r) ≡ true → q r ≡ true)
      → count q (update p f rows) ≤ count q rows
  unfolding count update
  count-update_le p f [] h = omega arith
  count-update_le p f (x ∷ rows) h = ground (arith, h x, count-update_le p f rows h)

  pub count-update_same :
      (p : A → Bool) (f : A → A) (rows : List A)
      → ((r : A) → p r ≡ true → q (f r) ≡ q r)
      → count q (update p f rows) ≡ count q rows
  unfolding count update
  count-update_same p f [] h = refl
  count-update_same p f (x ∷ rows) h = ground (arith, h x, count-update_same p f rows h)

  -- A write that touches no row is no write.
  pub update-count_zero : (f : A → A) (rows : List A) → count q rows ≡ 0 → update q f rows ≡ rows
  unfolding count update
  update-count_zero f [] e = refl
  update-count_zero f (x ∷ rows) e = ground (arith, update-count_zero f rows)

  pub find-none-count : (rows : List A) → find q rows ≡ none → count q rows ≡ 0
  unfolding find count
  find-none-count [] e = refl
  find-none-count (x ∷ rows) e = ground (arith, find-none-count rows)

  pub count_zero-find : (rows : List A) → count q rows ≡ 0 → find q rows ≡ none
  unfolding find count
  count_zero-find [] e = refl
  count_zero-find (x ∷ rows) e = ground (arith, count_zero-find rows)

pub count_mono :
    {A : Type 0} (p q : A → Bool) (rows : List A)
    → ((r : A) → p r ≡ true → q r ≡ true)
    → count p rows ≤ count q rows
unfolding count
count_mono p q [] h = omega arith
count_mono p q (x ∷ rows) h = ground (arith, h x, count_mono p q rows h)

module _ {ℓ} {A : Type 0} (P : A → Type ℓ) where
  pub All-find : (q : A → Bool) (rows : List A) {r : A} → All P rows → find q rows ≡ some r → P r
  unfolding find
  All-find q [] h e = cc
  All-find q (x ∷ rows) {r} h e = elim (Bool-cases (q x)) [
    | inl t ↦ let same : x ≡ r = cc (rw t at e) in subst P same h.0
    | inr t ↦ All-find q rows h.1 (rw t at e)
  ]

  pub All-insert : (x : A) (rows : List A) → All P rows → P x → All P (insert x rows)
  unfolding insert
  All-insert x [] h p = (p, tt)
  All-insert x (r ∷ rows) h p = (h.0, All-insert x rows h.1 p)

  pub All-update :
      (q : A → Bool) (f : A → A) (rows : List A)
      → ((r : A) → q r ≡ true → P r → P (f r))
      → All P rows
      → All P (update q f rows)
  unfolding update
  All-update q f [] k h = tt
  All-update q f (x ∷ rows) k h = elim (Bool-cases (q x)) [
    | inl t ↦ rw t (k x t h.0, All-update q f rows k h.1)
    | inr t ↦ rw t (h.0, All-update q f rows k h.1)
  ]

  pub All-delete : (q : A → Bool) (rows : List A) → All P rows → All P (delete q rows)
  unfolding delete
  All-delete q [] h = tt
  All-delete q (x ∷ rows) h = elim (Bool-cases (q x)) [
    | inl t ↦ rw t (All-delete q rows h.1)
    | inr t ↦ rw t (h.0, All-delete q rows h.1)
  ]

pub All-imp {ℓ κ} :
    {A : Type 0} (P : A → Type ℓ) (Q : A → Type κ) (rows : List A)
    → ((r : A) → P r → Q r)
    → All P rows
    → All Q rows
All-imp P Q [] k h = tt
All-imp P Q (x ∷ rows) k h = (k x h.0, All-imp P Q rows k h.1)

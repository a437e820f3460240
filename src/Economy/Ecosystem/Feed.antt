-- ===== src/Economy/Ecosystem/Feed.antt =====
-- The feed: a consumer that follows the cursors reads every event once.
use ndy_hub.Common.{
  ℕ, zero, suc, Key, Bool, true, Option, none, some, List, [], ◌∷◌, ◌++◌, ◌==◌, Bool-cases, ==_iff,
  ◌≤◌, ◌<◌, ◌≡◌, refl, sym, ap, ◌∙◌, ◌≢◌, inl, inr, arith,
}
use ndy_hub.Common.Table.{select}
use ndy_hub.Common.Table.Laws.{All}
use mathlib.Core.List.{append_assoc}
use ndy_hub.Common.Lists.{
  length, take, drop, get_last?, take-append-drop, length-take, length-drop, take_all, split_last,
}
use ndy_hub.Economy.Ecosystem.{
  EcosystemEvent, page, crashed, from_cursor, skipped, of_type, page_size, page_of, list_since,
}

-- A page size of 0, which the query `?take=0` asks for, crashes the request, whatever the log.
pub list_since-zero :
    (cursor type : Option Key) (events : List EcosystemEvent)
    → list_since cursor (some 0) type events ≡ crashed
unfolding list_since
list_since-zero cursor type events = refl

-- No two rows share their id.
abbrev pub Distinct : List EcosystemEvent → Type 0
Distinct [] = Unit
Distinct (r ∷ rows) = All (λ o. o.id ≢ r.id) rows × Distinct rows

All-append : {A : Type 0} (P : A → Type 0) (xs ys : List A) → All P (xs ++ ys) → All P ys
All-append P [] ys h = h
All-append P (x ∷ xs) ys h = All-append P xs ys h.1

-- A row that is there is where its cursor starts.
from_cursor-row :
    (front : List EcosystemEvent) (r : EcosystemEvent) (rest : List EcosystemEvent)
    → Distinct (front ++ (r ∷ rest))
    → from_cursor (some r.id) (front ++ (r ∷ rest)) ≡ r ∷ rest
unfolding from_cursor
from_cursor-row [] r rest h = ground (arith, ==_iff r.id r.id)
from_cursor-row (x ∷ front) r rest h = ground (
  arith,
  (All-append (λ o. o.id ≢ x.id) front (r ∷ rest) h.0).0,
  ==_iff x.id r.id,
  from_cursor-row front r rest h.1,
)

-- Where a consumer that asks for a type stands in the log: at its start, or at an event of the
-- type; `rest` is what is still to come.
abbrev pub StandsBefore :
    Option Key → Option Key → List EcosystemEvent → List EcosystemEvent → Type 0
StandsBefore none type events rest = events ≡ rest
StandsBefore (some c) type events rest =
    (front : List EcosystemEvent) × (r : EcosystemEvent) × (events ≡ front ++ (r ∷ rest))
    × (r.id ≡ c)
    × (of_type type r ≡ true)

-- What a page is cut from is what is still to come, of the type.
to_come :
    (cursor type : Option Key) (events rest : List EcosystemEvent)
    → Distinct events
    → StandsBefore cursor type events rest
    → drop (skipped cursor) (select (of_type type) (from_cursor cursor events))
      ≡ select (of_type type) rest
unfolding from_cursor select
to_come none type events rest distinct at_start = rw at_start refl
to_come (some c) type events rest distinct (front, r, whole, same, wanted) =
    let here : from_cursor (some c) events ≡ r ∷ rest =
      ap (λ k. from_cursor (some k) events) (sym same)
      ∙ ap (from_cursor (some r.id)) whole
      ∙ from_cursor-row front r rest (rw whole at distinct) in
    ground (arith, here, wanted)

head_split :
    {x e : EcosystemEvent} {xs ys : List EcosystemEvent} → x ∷ xs ≡ e ∷ ys → (x ≡ e) × (xs ≡ ys)
head_split h = (cc, cc)

-- A row that is selected stands in the list, before what is selected after it.
select-split :
    (q : EcosystemEvent → Bool) (rows front : List EcosystemEvent) (e : EcosystemEvent)
    (behind : List EcosystemEvent)
    → select q rows ≡ front ++ (e ∷ behind)
    → (before : List EcosystemEvent) × (rest : List EcosystemEvent) × (rows ≡ before ++ (e ∷ rest))
      × (q e ≡ true)
      × (select q rest ≡ behind)
unfolding select
select-split q [] [] e behind h = absurd (cc)
select-split q [] (y ∷ front) e behind h = absurd (cc)
select-split q (x ∷ rows) [] e behind h = elim (Bool-cases (q x)) [
  | inr other ↦
      let (before, rest, whole, wanted, after) = select-split q rows [] e behind (rw other at h) in
      (x ∷ before, rest, ap (λ l. x ∷ l) whole, wanted, after)
  | inl chosen ↦
      let (same, after) = head_split (rw chosen at h) in
      ([], rows, ap (λ y. y ∷ rows) same, ap q (sym same) ∙ chosen, after)
]
select-split q (x ∷ rows) (y ∷ front) e behind h = elim (Bool-cases (q x)) [
  | inr other ↦
      let (before, rest, whole, wanted, after) =
        select-split q rows (y ∷ front) e behind (rw other at h) in
      (x ∷ before, rest, ap (λ l. x ∷ l) whole, wanted, after)
  | inl chosen ↦
      let (_, tail) = head_split (rw chosen at h) in
      let (before, rest, whole, wanted, after) = select-split q rows front e behind tail in
      (x ∷ before, rest, ap (λ l. x ∷ l) whole, wanted, after)
]

-- An event of the type that is still to come is a place to stand at.
stand_later :
    (cursor type : Option Key) (events rest before later : List EcosystemEvent) (x : EcosystemEvent)
    → StandsBefore cursor type events rest
    → rest ≡ before ++ (x ∷ later)
    → of_type type x ≡ true
    → StandsBefore (some x.id) type events later
stand_later none type events rest before later x at_start split wanted =
    (before, x, at_start ∙ split, refl, wanted)
stand_later (some c) type events rest before later x (front, r, whole, _, _) split wanted = (
  front ++ (r ∷ before),
  x,
  whole ∙ ap (λ l. front ++ (r ∷ l)) split ∙ sym (append_assoc front (r ∷ before) (x ∷ later)),
  refl,
  wanted,
)

-- A consumer asks for pages of `size` until a page comes without a cursor; `fuel` bounds the
-- requests, and `none` stands for a crash or too few requests.
pub follow :
    ℕ → Option ℕ → Option Key → List EcosystemEvent → Option Key → Option (List EcosystemEvent)
follow zero size type events cursor = none
follow (suc fuel) size type events cursor = elim (list_since cursor size type events) [
  | crashed ↦ none
  | page shown none ↦ some shown
  | page shown (some c) ↦ elim (follow fuel size type events (some c)) [
    | none ↦ none
    | some more ↦ some (shown ++ more)
  ]
]

page_of-full :
    (size : ℕ) (shown : List EcosystemEvent) {e : EcosystemEvent}
    → length shown ≡ size
    → get_last? shown ≡ some e
    → page_of size shown ≡ page shown (some e.id)
unfolding page_of
page_of-full size shown full last = ground arith

page_of-short :
    (size : ℕ) (shown : List EcosystemEvent)
    → length shown ≢ size
    → page_of size shown ≡ page shown none
unfolding page_of
page_of-short size shown short = ground arith

-- The last event of a full page is where the next page starts.
next_stand :
    (cursor type : Option Key) (events rest : List EcosystemEvent) (size : ℕ) {e : EcosystemEvent}
    → StandsBefore cursor type events rest
    → 0 < size
    → length (take size (select (of_type type) rest)) ≡ size
    → get_last? (take size (select (of_type type) rest)) ≡ some e
    → (later : List EcosystemEvent) × StandsBefore (some e.id) type events later
      × (select (of_type type) later ≡ drop size (select (of_type type) rest))
next_stand cursor type events rest size {e} stands positive full last =
    let rows = select (of_type type) rest in
    let (front, x, shown, end_of) = split_last (take size rows) (omega arith) in
    let same : x ≡ e = cc in
    let cut : rows ≡ front ++ (x ∷ drop size rows) =
      sym (take-append-drop size rows)
      ∙ ap (λ l. l ++ drop size rows) shown
      ∙ append_assoc front (x ∷ []) (drop size rows) in
    let (before, later, whole, wanted, behind) =
      select-split (of_type type) rest front x (drop size rows) cut in
    (
      later,
      rw (← same) (stand_later cursor type events rest before later x stands whole wanted),
      behind,
    )

-- A consumer that follows the cursors from the start of the log or from an event of the type it
-- asks for, with a page size other than 0, is given every later event of the type, once and in
-- order, if no two events share an id; the number of requests is at most one more than the number
-- of those events.
pub follow-all :
    (fuel : ℕ) (size : Option ℕ) (type : Option Key) (events rest : List EcosystemEvent)
    (cursor : Option Key)
    → Distinct events
    → 0 < page_size size
    → StandsBefore cursor type events rest
    → length (select (of_type type) rest) < fuel
    → follow fuel size type events cursor ≡ some (select (of_type type) rest)
unfolding follow list_since
follow-all zero size type events rest cursor distinct positive stands enough = absurd (omega arith)
follow-all (suc fuel) size type events rest cursor distinct positive stands enough =
    let rows = select (of_type type) rest in
    let n = page_size size in
    let shown = take n rows in
    let here = to_come cursor type events rest distinct stands in
    elim (Bool-cases (length shown == n)) [
      | inr short ↦
          let few : length rows ≤ n = ground (arith, length-take n rows) in
          ground (arith, here, page_of-short n shown (ground arith), take_all n rows few)
      | inl same ↦
          let full : length shown ≡ n = (==_iff (length shown) n).0 same in
          let (front, e, _, last) = split_last shown (omega (arith, full)) in
          let (later, stands_later, next) =
            next_stand cursor type events rest n stands positive full last in
          let more =
            follow-all fuel size type events later (some e.id) distinct positive stands_later
              (rw next (omega (arith, full, length-take n rows, length-drop n rows))) in
          ground (arith, here, page_of-full n shown full last, more, next, take-append-drop n rows)
    ]

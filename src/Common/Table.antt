-- ===== src/Common/Table.antt =====
-- A database table as the list of its rows, oldest first, with the calls of the client that the
-- services make. A `where` clause is a Boolean test on a row.
pub mod Laws
pub mod Unique
use Prim.Native.Nat.{ℕ, suc}
use mathlib.Core.Bool.{Bool, true, ◌&&◌}
use mathlib.Core.Option.{Option, none, some}
use mathlib.Core.List.{List, [], ◌∷◌, ◌++◌}
use ndy_hub.Common.Tests.{if◌then◌else◌}

module _ {A : Type 0} where
  -- `findUnique`, `findFirst`
  unfoldable pub find : (A → Bool) → List A → Option A
  find p [] = none
  find p (r ∷ rows) = if p r then some r else find p rows

  -- `updateMany`, and `update` where the test fits one row
  unfoldable pub update : (A → Bool) → (A → A) → List A → List A
  update p f [] = []
  update p f (r ∷ rows) = (if p r then f r else r) ∷ update p f rows

  -- `count`, and the `count` that `updateMany` returns
  unfoldable pub count : (A → Bool) → List A → ℕ
  count p [] = 0
  count p (r ∷ rows) = if p r then suc (count p rows) else count p rows

  -- `findMany`
  unfoldable pub select : (A → Bool) → List A → List A
  select p [] = []
  select p (r ∷ rows) = if p r then r ∷ select p rows else select p rows

  -- `deleteMany`
  unfoldable pub delete : (A → Bool) → List A → List A
  delete p [] = []
  delete p (r ∷ rows) = if p r then delete p rows else r ∷ delete p rows

  -- `rows.every(...)`
  unfoldable pub every : (A → Bool) → List A → Bool
  every p [] = true
  every p (r ∷ rows) = p r && every p rows

  -- `create`: a new row is the youngest
  unfoldable pub insert : A → List A → List A
  insert r rows = rows ++ r ∷ []

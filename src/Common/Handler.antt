-- ===== src/Common/Handler.antt =====
-- A request handler: it reads and writes the database and may throw. What was written before a
-- throw stays written, so the state comes back beside the error as well. `E` are the exceptions
-- of the component.
use mathlib.Core.Path.{◌≡◌, refl}
use mathlib.Core.Logic.{◌⊎◌, inl, inr}
use mathlib.Core.Bool.{Bool}
use mathlib.Core.Option.{Option, none, some}
use ndy_hub.Common.Tests.{if◌then◌else◌}

pub data Result (E A : Type 0) : Type 0 where
  ok : A → Result E A
  err : E → Result E A

abbrev pub Handler : Type 0 → Type 0 → Type 0 → Type 0
Handler S E A = S → Result E A × S

module _ {S E : Type 0} where
  abbrev pub pure : {A : Type 0} → A → Handler S E A
  pure a s = (ok a, s)

  -- `throw new SomeException(...)`
  abbrev pub throw : {A : Type 0} → E → Handler S E A
  throw e s = (err e, s)

  -- `if (bad) throw ...`
  abbrev pub throw_if : Bool → E → Handler S E (Unit {0})
  throw_if bad e s = (if bad then err e else ok tt, s)

  -- `if (!found) throw ...`
  abbrev pub or_throw : {A : Type 0} → Option A → E → Handler S E A
  or_throw none e s = (err e, s)
  or_throw (some a) e s = (ok a, s)

  -- A read of the database.
  abbrev pub query : {A : Type 0} → (S → A) → Handler S E A
  query f s = (ok (f s), s)

  -- A write of the database.
  abbrev pub write : (S → S) → Handler S E (Unit {0})
  write f s = (ok tt, f s)

infixl 5 ◌>>=◌ ◌>>◌
abbrev pub ◌>>=◌ : {S E A B : Type 0} → Handler S E A → (A → Handler S E B) → Handler S E B
◌>>=◌ m f s = let (r, s') = m s in elim r [ ok a ↦ f a s' | err e ↦ (err e, s') ]

abbrev pub ◌>>◌ : {S E B : Type 0} → Handler S E (Unit {0}) → Handler S E B → Handler S E B
m >> k = m >>= λ _. k

pub Result-cases :
    {E A : Type 0} (r : Result E A) → ((a : A) × (r ≡ ok a)) ⊎ ((e : E) × (r ≡ err e))
Result-cases (ok a) = inl (a, refl)
Result-cases (err e) = inr (e, refl)

-- ===== src/Common/Chars.antt =====
-- Texts as lists of character codes, where the code walks their characters.
use Prim.Native.Char.{code}
use Prim.Native.String.{String}
use Prim.Native.Nat.{ℕ}
use mathlib.Core.Path.{◌≡◌, refl}
use mathlib.Core.Bool.{Bool, true, ◌&&◌}
use mathlib.Core.Option.{Option, none, some}
use mathlib.Core.List.{List, [], ◌∷◌, ◌++◌}
use native.Mathlib.Omega.{arith}
use ndy_hub.Common.Tests.{◌==◌, if◌then◌else◌}

abbrev pub codes : String → List ℕ
codes String.[] = []
codes (String.◌∷◌ c s) = code c ∷ codes s

-- What follows a literal at the start of a text.
unfoldable pub strip_prefix : List ℕ → List ℕ → Option (List ℕ)
strip_prefix [] s = some s
strip_prefix (c ∷ p) [] = none
strip_prefix (c ∷ p) (d ∷ s) = if c == d then strip_prefix p s else none

unfoldable pub every_char : (ℕ → Bool) → List ℕ → Bool
every_char p [] = true
every_char p (c ∷ s) = p c && every_char p s

pub strip_prefix-append : (p s : List ℕ) → strip_prefix p (p ++ s) ≡ some s
unfolding strip_prefix
strip_prefix-append [] s = refl
strip_prefix-append (c ∷ p) s = ground (arith, strip_prefix-append p s)

pub strip_prefix-eq : (p s : List ℕ) {rest : List ℕ} → strip_prefix p s ≡ some rest → s ≡ p ++ rest
unfolding strip_prefix
strip_prefix-eq [] s e = cc
strip_prefix-eq (c ∷ p) [] e = absurd (cc)
strip_prefix-eq (c ∷ p) (d ∷ s) {rest} e = ground (arith, strip_prefix-eq p s {rest = rest})

pub every_char-imp :
    (p q : ℕ → Bool) (s : List ℕ)
    → ((c : ℕ) → p c ≡ true → q c ≡ true)
    → every_char p s ≡ true
    → every_char q s ≡ true
unfolding every_char
every_char-imp p q [] k h = refl
every_char-imp p q (c ∷ s) k h = ground (arith, k c, every_char-imp p q s k)

pub every_char-append :
    (p : ℕ → Bool) (s t : List ℕ)
    → every_char p s ≡ true
    → every_char p t ≡ true
    → every_char p (s ++ t) ≡ true
unfolding every_char
every_char-append p [] t h k = k
every_char-append p (c ∷ s) t h k = ground (arith, every_char-append p s t)

-- ===== src/Identity/Genesis.antt =====
-- Genesis cores: the zero-padded numbers of the founding identities.
use ndy_hub.Common.{
  ℕ, zero, suc, Bool, true, ◌&&◌, none, some, List, [], ◌∷◌, ◌++◌, ltb, leb, Bool-cases,
  Option-cases, ◌+◌, ◌-◌, ◌*◌, ◌/◌, ◌%◌, ◌≤◌, ◌<◌, ◌≡◌, refl, ap, ◌⊎◌, inl, inr, arith,
}
use ndy_hub.Common.Chars.{every_char, every_char-imp, every_char-append}
use ndy_hub.Common.Lists.{length}
use ndy_hub.Identity.{
  NdyIdType, ceo, ParsedId, format_ndy_id, is_core_char, is_core_id, parse_ndy_id, decimal, zeros,
  pad_start, max_safe_integer, number_text, format_genesis_core_id,
}
use ndy_hub.Identity.RoundTrip.{Spells, parse-format, parse_sound}

length-append {ℓ} : {A : Type ℓ} (xs ys : List A) → length (xs ++ ys) ≡ length xs + length ys
length-append [] ys = omega arith
length-append (x ∷ xs) ys = omega (arith, length-append xs ys)

length-zeros : (n : ℕ) → length (zeros n) ≡ n
length-zeros zero = refl
length-zeros (suc n) = omega (arith, length-zeros n)

abbrev pub is_digit : ℕ → Bool
is_digit c = leb b'0' c && leb c b'9'

-- The number that a text of digits stands for, read from the left behind `front`.
abbrev pub value : ℕ → List ℕ → ℕ
value front [] = front
value front (c ∷ s) = value (front * 10 + (c - b'0')) s

is_digit-zeros : (n : ℕ) → every_char is_digit (zeros n) ≡ true
unfolding every_char
is_digit-zeros zero = refl
is_digit-zeros (suc n) = ground (arith, is_digit-zeros n)

-- The digits of a number are digits.
is_digit-decimal : (fuel n : ℕ) → every_char is_digit (decimal fuel n) ≡ true
unfolding decimal every_char
is_digit-decimal zero n = refl
is_digit-decimal (suc fuel) n = elim (Bool-cases (ltb n 10)) [
  | inl small ↦ ground arith
  | inr large ↦ ground (
    arith,
    every_char-append is_digit (decimal fuel (n / 10)) ((48 + n % 10) ∷ [])
        (is_digit-decimal fuel (n / 10)),
  )
]

is_digit-pad : (n : ℕ) → every_char is_digit (pad_start (decimal n n)) ≡ true
unfolding pad_start
is_digit-pad n =
    every_char-append is_digit (zeros (6 - length (decimal n n))) (decimal n n)
      (is_digit-zeros (6 - length (decimal n n))) (is_digit-decimal n n)

value-append : (front : ℕ) (xs ys : List ℕ) → value front (xs ++ ys) ≡ value (value front xs) ys
value-append front [] ys = refl
value-append front (c ∷ xs) ys = value-append (front * 10 + (c - 48)) xs ys

value-zeros : (n : ℕ) → value 0 (zeros n) ≡ 0
value-zeros zero = refl
value-zeros (suc n) = value-zeros n

-- The digits of a number stand for it.
value-decimal : (fuel n : ℕ) → n ≤ fuel → value 0 (decimal fuel n) ≡ n
unfolding decimal
value-decimal zero n enough = omega arith
value-decimal (suc fuel) n enough = elim (Bool-cases (ltb n 10)) [
  | inl small ↦ ground arith
  | inr large ↦ ground (
    arith,
    value-append 0 (decimal fuel (n / 10)) ((48 + n % 10) ∷ []),
    value-decimal fuel (n / 10),
  )
]

value-pad : (n : ℕ) → value 0 (pad_start (decimal n n)) ≡ n
unfolding pad_start
value-pad n = ground (
  arith,
  value-append 0 (zeros (6 - length (decimal n n))) (decimal n n),
  value-zeros (6 - length (decimal n n)),
  value-decimal n n,
)

-- 10 to the power k.
pub power_of_ten : ℕ → ℕ
power_of_ten zero = 1
power_of_ten (suc k) = 10 * power_of_ten k

power_pos : (k : ℕ) → 0 < power_of_ten k
unfolding power_of_ten
power_pos zero = omega arith
power_pos (suc k) = omega (arith, power_pos k)

-- A number below 10 ^ k has at most k digits, and one from 10 ^ k on has more than k.
length-decimal_le : (fuel n k : ℕ) → n < power_of_ten (suc k) → length (decimal fuel n) ≤ suc k
unfolding decimal power_of_ten
length-decimal_le zero n k h = omega arith
length-decimal_le (suc fuel) n zero h = ground arith
length-decimal_le (suc fuel) n (suc k) h = ground (
  arith,
  length-append (decimal fuel (n / 10)) ((48 + n % 10) ∷ []),
  length-decimal_le fuel (n / 10) k,
)

length-decimal_lt : (fuel n k : ℕ) → n ≤ fuel → power_of_ten k ≤ n → k < length (decimal fuel n)
unfolding decimal power_of_ten
length-decimal_lt zero n zero e h = absurd (omega arith)
length-decimal_lt zero n (suc k) e h = absurd (omega (arith, power_pos k))
length-decimal_lt (suc fuel) n zero e h =
    ground (arith, length-append (decimal fuel (n / 10)) ((48 + n % 10) ∷ []))
length-decimal_lt (suc fuel) n (suc k) e h = ground (
  arith,
  power_pos k,
  length-append (decimal fuel (n / 10)) ((48 + n % 10) ∷ []),
  length-decimal_lt fuel (n / 10) k,
)

length-pad : (n : ℕ) → n < 1_000_000 → length (pad_start (decimal n n)) ≡ 6
unfolding pad_start power_of_ten
length-pad n h = omega (
  arith,
  length-decimal_le n n 5 (omega arith),
  length-append (zeros (6 - length (decimal n n))) (decimal n n),
  length-zeros (6 - length (decimal n n)),
)

is_core-pad : (n : ℕ) → n < 1_000_000 → is_core_id (pad_start (decimal n n)) ≡ true
unfolding is_core_id
is_core-pad n h = ground (
  arith,
  length-pad n h,
  every_char-imp is_digit is_core_char (pad_start (decimal n n)) (λ c e. ground (arith, e))
      (is_digit-pad n),
)

long-pad : (n : ℕ) → 1_000_000 ≤ n → 6 < length (pad_start (decimal n n))
unfolding pad_start power_of_ten
long-pad n h = omega (
  arith,
  length-decimal_lt n n 6 (omega arith) (omega arith),
  length-append (zeros (6 - length (decimal n n))) (decimal n n),
)

length-format :
    (core_id : List ℕ) (type : NdyIdType) → length (format_ndy_id core_id type) ≡ 8 + length core_id
unfolding format_ndy_id
length-format core_id ceo = omega arith
length-format core_id _ = omega arith

not_spelled :
    (core_id : List ℕ) (type : NdyIdType) (p : ParsedId)
    → 6 < length core_id
    → Spells (format_ndy_id core_id type) p
    → ⊥
unfolding is_core_id
not_spelled core_id type (some t, core') long (e, good) =
    ground (arith, ap length e, length-format core_id type, length-format core' t)
not_spelled core_id type (none, core') long (e, good) =
    ground (arith, ap length e, length-format core_id type)

parse_long :
    (core_id : List ℕ) (type : NdyIdType)
    → 6 < length core_id
    → parse_ndy_id (format_ndy_id core_id type) ≡ none
parse_long core_id type long = elim (Option-cases (parse_ndy_id (format_ndy_id core_id type))) [
  | inl missing ↦ missing
  | inr (p, found) ↦
      absurd (not_spelled core_id type p long (parse_sound (format_ndy_id core_id type) found))
]

formatted :
    (large : ℕ → List ℕ) (n : ℕ)
    → 0 < n
    → n ≤ max_safe_integer
    → format_genesis_core_id large n ≡ some (pad_start (decimal n n))
unfolding format_genesis_core_id number_text
formatted large n h safe = ground arith

-- A positive genesis number that is a safe integer is formatted as a core of digits that stand for
-- the number. Up to 999999 the core has six characters and the id built from it is parsed back
-- whole; from 1000000 on the core has more than six and the id is not parsed at all.
pub parse-genesis :
    (large : ℕ → List ℕ) (sequence : ℕ) (type : NdyIdType)
    → 0 < sequence
    → sequence ≤ max_safe_integer
    → (core_id : List ℕ) × (format_genesis_core_id large sequence ≡ some core_id)
      × (every_char is_digit core_id ≡ true)
      × (value 0 core_id ≡ sequence)
      × (((sequence < 1_000_000)
            × (length core_id ≡ 6)
            × (parse_ndy_id (format_ndy_id core_id type) ≡ some (some type, core_id)))
          ⊎ ((1_000_000 ≤ sequence)
              × (6 < length core_id)
              × (parse_ndy_id (format_ndy_id core_id type) ≡ none)))
parse-genesis large sequence type positive safe =
    let core_id = pad_start (decimal sequence sequence) in
    (
      core_id,
      formatted large sequence positive safe,
      is_digit-pad sequence,
      value-pad sequence,
      elim (Bool-cases (ltb sequence 1_000_000)) [
        | inl small ↦
            let below : sequence < 1_000_000 = ground arith in
            inl (
              below,
              length-pad sequence below,
              parse-format core_id type (is_core-pad sequence below),
            )
        | inr great ↦
            let above : 1_000_000 ≤ sequence = ground arith in
            inr (above, long-pad sequence above, parse_long core_id type (long-pad sequence above))
      ],
    )

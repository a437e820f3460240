-- ===== src/Identity/RoundTrip.antt =====
-- Formatting and parsing an NDY ID.
use ndy_hub.Common.{
  ℕ, true, none, some, List, [], ◌∷◌, ◌++◌, ◌==◌, is_some, Bool-cases, Option-cases, ◌≡◌, sym, ap,
  ◌∙◌, inl, inr, arith,
}
use ndy_hub.Common.Table.{find}
use mathlib.Core.List.{append_assoc}
use ndy_hub.Common.Chars.{codes, strip_prefix, strip_prefix-eq, every_char, every_char-imp}
use ndy_hub.Common.Lists.{length}
use ndy_hub.Identity.{
  NdyIdType, ceo, fnd, segment, format_ndy_id, is_core_char, is_core_id, ParsedId, with_type,
  all_types, legacy, parse_ndy_id, alphabet,
}

-- Every formatted id is parsed back into its type and its core, for each core of six characters
-- from A-Z and 0-9.
pub parse-format :
    (core_id : List ℕ) (type : NdyIdType)
    → is_core_id core_id ≡ true
    → parse_ndy_id (format_ndy_id core_id type) ≡ some (some type, core_id)
unfolding parse_ndy_id format_ndy_id with_type strip_prefix
parse-format core_id ceo h = ground arith
parse-format core_id fnd h = ground arith
parse-format core_id _ h = ground arith

-- What the alternatives accept is a type, a dash and a core.
with_type_sound :
    (types : List NdyIdType) (s : List ℕ) {p : ParsedId}
    → with_type types s ≡ some p
    → (t : NdyIdType) × (core_id : List ℕ) × (p ≡ (some t, core_id))
      × (s ≡ (segment t ++ codes "-") ++ core_id)
      × (is_core_id core_id ≡ true)
unfolding with_type
with_type_sound [] s e = absurd (cc)
with_type_sound (t ∷ types) s {p} e =
    elim (Option-cases (strip_prefix (segment t ++ codes "-") s)) [
      | inl missing ↦ with_type_sound types s (rw (missing, with_type) at e)
      | inr (core_id, found) ↦ elim (Bool-cases (is_core_id core_id)) [
        | inr bad ↦ with_type_sound types s (rw (found, bad, with_type) at e)
        | inl good ↦ (
          t,
          core_id,
          cc (rw (found, good, with_type) at e),
          strip_prefix-eq (segment t ++ codes "-") s found,
          good,
        )
      ]
    ]

-- The text that a parsed id stands for.
abbrev pub Spells : List ℕ → ParsedId → Type 0
Spells s (some type, core_id) = (s ≡ format_ndy_id core_id type) × (is_core_id core_id ≡ true)
Spells s (none, core_id) = (s ≡ codes "NDY-" ++ core_id) × (is_core_id core_id ≡ true)

legacy_sound :
    (s : List ℕ) {p : ParsedId} → legacy s ≡ some p → (p ≡ (none, s)) × (is_core_id s ≡ true)
unfolding legacy
legacy_sound s e = ground arith

Spells-typed :
    (s rest : List ℕ) (t : NdyIdType) (core_id : List ℕ)
    → s ≡ codes "NDY-" ++ rest
    → rest ≡ (segment t ++ codes "-") ++ core_id
    → s ≡ format_ndy_id core_id t
unfolding format_ndy_id
Spells-typed s rest t core_id e f =
    e ∙ ap (λ l. codes "NDY-" ++ l) (f ∙ append_assoc (segment t) (codes "-") core_id)

-- Whatever is parsed was formatted: an id that is parsed into a type and a core is the format of
-- that core and type, one that is parsed with no type is `NDY-` and the core, and every core that
-- is returned has six characters from A-Z and 0-9.
pub parse_sound : (s : List ℕ) {p : ParsedId} → parse_ndy_id s ≡ some p → Spells s p
unfolding parse_ndy_id
parse_sound s {p} e = elim (Option-cases (strip_prefix (codes "NDY-") s)) [
  | inl missing ↦ absurd (ground (arith, missing))
  | inr (rest, found) ↦
      let whole = strip_prefix-eq (codes "NDY-") s found in
      elim (Option-cases (with_type all_types rest)) [
        | inr (q, typed) ↦
            let (t, core_id, shape, spelled, good) = with_type_sound all_types rest typed in
            let same : p ≡ (some t, core_id) = ground (arith, found, typed, shape) in
            rw same (Spells-typed s rest t core_id whole spelled, good)
        | inl untyped ↦
            let (shape, good) = legacy_sound rest {p = p} (ground (arith, found, untyped)) in
            rw shape (whole, good)
      ]
]

-- Two users never share an id: formatted ids agree only if their types and their cores do, for
-- cores of six characters from A-Z and 0-9.
pub format-injective :
    (core_id core_id' : List ℕ) (type type' : NdyIdType)
    → is_core_id core_id ≡ true
    → is_core_id core_id' ≡ true
    → format_ndy_id core_id type ≡ format_ndy_id core_id' type'
    → (core_id ≡ core_id') × (type ≡ type')
format-injective core_id core_id' type type' h h' e =
    let one = parse-format core_id type h in
    let two = parse-format core_id' type' h' in
    let same : some (some type, core_id) ≡ some (some type', core_id') =
      sym one ∙ ap parse_ndy_id e ∙ two in
    (cc same, cc same)

alphabet_in_class : (c : ℕ) → is_some (find (λ a. a == c) alphabet) ≡ true → is_core_char c ≡ true
unfolding find
alphabet_in_class c h = ground arith

core_of_alphabet :
    (core_id : List ℕ)
    → length core_id ≡ 6
    → every_char (λ c. is_some (find (λ a. a == c) alphabet)) core_id ≡ true
    → is_core_id core_id ≡ true
unfolding is_core_id
core_of_alphabet core_id six drawn = ground (
  arith,
  every_char-imp (λ c. is_some (find (λ a. a == c) alphabet)) is_core_char core_id alphabet_in_class
      drawn,
)

-- A core that `generateCoreId` draws, six characters of the alphabet, gives an id that is parsed
-- back whole with every type.
pub parse-generated :
    (core_id : List ℕ) (type : NdyIdType)
    → length core_id ≡ 6
    → every_char (λ c. is_some (find (λ a. a == c) alphabet)) core_id ≡ true
    → parse_ndy_id (format_ndy_id core_id type) ≡ some (some type, core_id)
parse-generated core_id type six drawn =
    parse-format core_id type (core_of_alphabet core_id six drawn)

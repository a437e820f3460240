-- ===== src/Identity.antt =====
-- The public NDY ID (apps/api/src/common/ndy-id.util.ts). Texts are lists of character codes.
pub mod RoundTrip
pub mod Genesis
mod Tests
use ndy_hub.Common.{
  ℕ, zero, suc, Bool, true, false, ◌&&◌, ◌||◌, Option, none, some, List, [], ◌∷◌, ◌++◌, ltb, leb,
  ◌==◌, if◌then◌else◌, ◌+◌, ◌-◌, ◌/◌, ◌%◌,
}
use ndy_hub.Common.Chars.{codes, strip_prefix, every_char}
use ndy_hub.Common.Lists.{length}
use ndy_hub.Access.{Role, founder}

pub data NdyIdType : Type 0 where
  ceo fnd exe prt inv dev biz mbr : NdyIdType

abbrev pub segment : NdyIdType → List ℕ
segment ceo = codes "CEO"
segment fnd = codes "FND"
segment exe = codes "EXE"
segment prt = codes "PRT"
segment inv = codes "INV"
segment dev = codes "DEV"
segment biz = codes "BIZ"
segment mbr = codes "MBR"

-- `ndyIdTypeForRole`
unfoldable pub ndy_id_type_for_role : Role → NdyIdType
ndy_id_type_for_role founder = fnd
ndy_id_type_for_role _ = mbr

-- `ndyIdTypeForUser`: an explicit override wins over the role.
unfoldable pub ndy_id_type_for_user : Option NdyIdType → Role → NdyIdType
ndy_id_type_for_user (some t) role = t
ndy_id_type_for_user none role = ndy_id_type_for_role role

-- `isOverrideOnlyNdyIdType`
pub is_override_only_ndy_id_type : NdyIdType → Bool
is_override_only_ndy_id_type ceo = true
is_override_only_ndy_id_type exe = true
is_override_only_ndy_id_type prt = true
is_override_only_ndy_id_type inv = true
is_override_only_ndy_id_type dev = true
is_override_only_ndy_id_type _ = false

-- `formatNdyId`
unfoldable pub format_ndy_id : List ℕ → NdyIdType → List ℕ
format_ndy_id core_id type = codes "NDY-" ++ (segment type ++ (codes "-" ++ core_id))

-- `[A-Z0-9]`
abbrev pub is_core_char : ℕ → Bool
is_core_char c = (leb b'A' c && leb c b'Z') || (leb b'0' c && leb c b'9')

-- `[A-Z0-9]{6}` up to the end of the text
pub is_core_id : List ℕ → Bool
is_core_id s = length s == 6 && every_char is_core_char s

abbrev pub ParsedId : Type 0
ParsedId = Option NdyIdType × List ℕ

-- The alternatives of the first regular expression, tried in its order behind `NDY-`.
pub with_type : List NdyIdType → List ℕ → Option ParsedId
with_type [] s = none
with_type (t ∷ types) s = elim (strip_prefix (segment t ++ codes "-") s) [
  | some core_id ↦ if is_core_id core_id then some (some t, core_id) else with_type types s
  | none ↦ with_type types s
]

abbrev pub all_types : List NdyIdType
all_types = ceo ∷ fnd ∷ exe ∷ prt ∷ inv ∷ dev ∷ biz ∷ mbr ∷ []

-- The second regular expression, the legacy format.
pub legacy : List ℕ → Option ParsedId
legacy s = if is_core_id s then some (none, s) else none

-- `parseNdyId`
pub parse_ndy_id : List ℕ → Option ParsedId
parse_ndy_id s = elim (strip_prefix (codes "NDY-") s) [
  | none ↦ none
  | some rest ↦ elim (with_type all_types rest) [ some p ↦ some p | none ↦ legacy rest ]
]

-- `ALPHABET`, from which `generateCoreId` draws six characters.
abbrev pub alphabet : List ℕ
alphabet = codes "23456789ABCDEFGHJKMNPQRSTUVWXYZ"

-- The decimal digits of a number; `fuel` bounds their number.
pub decimal : ℕ → ℕ → List ℕ
decimal zero n = []
decimal (suc fuel) n =
    let front = decimal fuel (n / 10) in
    if ltb n 10 then (b'0' + n) ∷ [] else front ++ ((b'0' + n % 10) ∷ [])

abbrev pub zeros : ℕ → List ℕ
zeros zero = []
zeros (suc n) = b'0' ∷ zeros n

-- `.padStart(6, '0')`
pub pad_start : List ℕ → List ℕ
pad_start s = zeros (6 - length s) ++ s

-- `Number.MAX_SAFE_INTEGER`
abbrev pub max_safe_integer : ℕ
max_safe_integer = 9_007_199_254_740_991

-- `String(sequence)`. Above the safe integers it rounds, and from 10^21 on it writes an exponent:
-- what it makes of these is the argument `large`.
pub number_text : (ℕ → List ℕ) → ℕ → List ℕ
unfolding decimal
number_text large sequence =
    if leb sequence max_safe_integer then decimal sequence sequence else large sequence

-- `formatGenesisCoreId`; `none` is the error for a number that is not positive.
pub format_genesis_core_id : (ℕ → List ℕ) → ℕ → Option (List ℕ)
unfolding number_text pad_start
format_genesis_core_id large sequence =
    if ltb sequence 1 then none else some (pad_start (number_text large sequence))

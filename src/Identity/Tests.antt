-- ===== src/Identity/Tests.antt =====
-- The theorems on NDY IDs at concrete inputs.
use ndy_hub.Common.{ℕ, true, none, some, List, ◌≤◌, ◌<◌, ◌≡◌, ◌⊎◌, refl, arith}
use ndy_hub.Common.Chars.{codes, every_char}
use ndy_hub.Common.Lists.{length}
use ndy_hub.Identity.{fnd, mbr, format_ndy_id, is_core_id, parse_ndy_id, format_genesis_core_id}
use ndy_hub.Identity.RoundTrip.{parse-format}
use ndy_hub.Identity.Genesis.{is_digit, value, parse-genesis}

parse-format_example : parse_ndy_id (codes "NDY-MBR-7K9XQ2") ≡ some (some mbr, codes "7K9XQ2")
unfolding is_core_id every_char format_ndy_id
parse-format_example = parse-format (codes "7K9XQ2") mbr refl

abbrev codes_of_large : ℕ → List ℕ
codes_of_large n = codes "1e+21"

parse-genesis_example :
    (core_id : List ℕ) × (format_genesis_core_id codes_of_large 2 ≡ some core_id)
    × (every_char is_digit core_id ≡ true)
    × (value 0 core_id ≡ 2)
    × (((2 < 1_000_000)
          × (length core_id ≡ 6)
          × (parse_ndy_id (format_ndy_id core_id fnd) ≡ some (some fnd, core_id)))
        ⊎ ((1_000_000 ≤ 2)
            × (6 < length core_id)
            × (parse_ndy_id (format_ndy_id core_id fnd) ≡ none)))
parse-genesis_example = parse-genesis codes_of_large 2 fnd (omega arith) (omega arith)

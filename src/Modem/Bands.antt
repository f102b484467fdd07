-- ===== src/Modem/Bands.antt =====
-- server/src/lte.rs: the bands of the modem, as numbers and as the bitmask of its commands. A text
-- is the list of its codes.
use sctl.Prelude.{
  ℕ, zero, suc, ◌+◌, ◌-◌, ◌^◌, Bool, ◌&&◌, List, [], ◌∷◌, Option, none, some, codes, leb, ◌==◌,
  if◌then◌else◌, map, get_elem?, contains_text, lines, split, trim, find, parse_unsigned,
}
use sctl.Modem.Bits.{test_bit, set_bit}
use sctl.Modem.Hex.{print_hex, parse_hex}

abbrev pub mask_from : ℕ → List ℕ → ℕ
mask_from mask [] = mask
mask_from mask (b ∷ bs) = mask_from (if leb 1 b && leb b 128 then set_bit (b - 1) mask else mask) bs

unfoldable pub mask_of : List ℕ → ℕ
mask_of bands = mask_from 0 bands

unfoldable pub bands_to_hex : List ℕ → List ℕ
bands_to_hex bands = print_hex (mask_of bands)

-- The bands of the `k` bits from `bit` on.
unfoldable pub bands_from : ℕ → ℕ → ℕ → List ℕ
bands_from zero bit mask = []
bands_from (suc k) bit mask =
    let rest = bands_from k (suc bit) mask in if test_bit bit mask then (bit + 1) ∷ rest else rest

-- `trim_start_matches` for a prefix of two characters.
abbrev pub trim_start_pair : ℕ → ℕ → List ℕ → List ℕ
trim_start_pair a b [] = []
trim_start_pair a b (x ∷ []) = x ∷ []
trim_start_pair a b (x ∷ y ∷ s) = if x == a && y == b then trim_start_pair a b s else x ∷ y ∷ s

-- `trim_matches` of a character
abbrev pub trim_start_char : ℕ → List ℕ → List ℕ
trim_start_char c [] = []
trim_start_char c (x ∷ s) = if x == c then trim_start_char c s else x ∷ s

abbrev pub trim_end_char : ℕ → List ℕ → List ℕ
trim_end_char c [] = []
trim_end_char c (x ∷ s) = elim (trim_end_char c s) [
  | [] ↦ if x == c then [] else x ∷ []
  | ◌∷◌ y ys ↦ x ∷ y ∷ ys
]

abbrev pub trim_char : ℕ → List ℕ → List ℕ
trim_char c s = trim_end_char c (trim_start_char c s)

abbrev pub bands_of : Option ℕ → List ℕ
bands_of none = []
bands_of (some mask) = bands_from 128 0 mask

-- The third field of the answer.
unfoldable pub decode_bands : List ℕ → List ℕ
decode_bands field =
    bands_of
      (parse_hex (trim_start_pair b'0' b'X' (trim_start_pair b'0' b'x' (trim_char b'"' field))))

abbrev pub or_empty : Option (List ℕ) → (List ℕ → List ℕ) → List ℕ
or_empty none f = []
or_empty (some x) f = f x

abbrev pub is_band_line : List ℕ → Bool
is_band_line l = contains_text (codes "+QCFG:") l && contains_text (codes "band") l

unfoldable pub parse_band_config : List ℕ → List ℕ
parse_band_config response = or_empty (find is_band_line (lines response)) λ line.
    or_empty (get_elem? (split b':' line) 1)
      λ fields. or_empty (get_elem? (map trim (split b',' fields)) 2) decode_bands

abbrev pub then_number : Option (List ℕ) → (List ℕ → Option ℕ) → Option ℕ
then_number none f = none
then_number (some x) f = f x

abbrev pub is_priority_line : List ℕ → Bool
is_priority_line l = contains_text (codes "+QCFG:") l && contains_text (codes "bandpri") l

-- A priority band is an unsigned number of 16 bits.
unfoldable pub parse_bandpri : List ℕ → Option ℕ
parse_bandpri response = then_number (find is_priority_line (lines response)) λ line.
    then_number (get_elem? (split b':' line) 1) λ fields.
      then_number (get_elem? (map trim (split b',' (trim fields))) 1)
        λ field. parse_unsigned (2 ^ 16) (trim_char b'"' field)

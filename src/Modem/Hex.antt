-- ===== src/Modem/Hex.antt =====
-- Numbers in base 16, as `format!("{n:X}")` prints them and `u128::from_str_radix(s, 16)` reads
-- them. A text is the list of its codes.
use sctl.Prelude.{
  ℕ, zero, suc, ◌+◌, ◌-◌, ◌*◌, ◌/◌, ◌%◌, ◌^◌, ◌<◌, ◌≤◌, ◌≡◌, ◌&&◌, List, [], ◌∷◌, Option, none,
  some, ltb, leb, ◌==◌, if◌then◌else◌, arith, ◌⊎◌, inl, inr, Bool-cases, All, length, false, ◌∙◌,
}

abbrev pub hex_digit : ℕ → ℕ
hex_digit d = if ltb d 10 then b'0' + d else b'A' + (d - 10)

-- The digits of `n` before those of `acc`; a number of `f` digits needs `f` rounds.
unfoldable pub hex_from : ℕ → ℕ → List ℕ → List ℕ
hex_from zero n acc = acc
hex_from (suc f) n acc =
    let rest = hex_from f (n / 16) (hex_digit (n % 16) ∷ acc) in
    if ltb n 16 then hex_digit n ∷ acc else rest

-- A `u128` has at most 32 digits.
unfoldable pub print_hex : ℕ → List ℕ
unfolding hex_from
print_hex n = hex_from 32 n []

abbrev pub digit_value : ℕ → Option ℕ
digit_value c =
    if leb b'0' c && leb c b'9'
    then some (c - b'0')
    else if leb b'A' c && leb c b'F'
    then some (c - b'A' + 10)
    else if leb b'a' c && leb c b'f'
    then some (c - b'a' + 10)
    else none

-- The rest of the digits after the value read so far.
abbrev pub value_step : ℕ → Option ℕ → (ℕ → Option ℕ) → Option ℕ
value_step v none rest = none
value_step v (some d) rest = if ltb (v * 16 + d) (2 ^ 128) then rest (v * 16 + d) else none

unfoldable pub value_from : ℕ → List ℕ → Option ℕ
value_from v [] = some v
value_from v (c ∷ s) = value_step v (digit_value c) (λ w. value_from w s)

-- A leading `+` is accepted, an empty text is not.
unfoldable pub parse_hex : List ℕ → Option ℕ
unfolding value_from
parse_hex [] = none
parse_hex (c ∷ []) = if c == b'+' then none else value_from 0 (c ∷ [])
parse_hex (c ∷ d ∷ s) = if c == b'+' then value_from 0 (d ∷ s) else value_from 0 (c ∷ d ∷ s)

-- What `print_hex` writes.
abbrev pub IsHex : ℕ → Type 0
IsHex c = ((b'0' ≤ c) × (c ≤ b'9')) ⊎ ((b'A' ≤ c) × (c ≤ b'F'))

hex_digit-IsHex : (d : ℕ) → d < 16 → IsHex (hex_digit d)
hex_digit-IsHex d h = elim (Bool-cases (ltb d 10)) [
  | inl small ↦ rw small (inl (omega arith, ground arith))
  | inr large ↦ rw large (inr (omega arith, omega arith))
]

pub hex_from-IsHex : (f n : ℕ) (acc : List ℕ) → All IsHex acc → All IsHex (hex_from f n acc)
unfolding hex_from
hex_from-IsHex zero n acc h = h
hex_from-IsHex (suc f) n acc h = elim (Bool-cases (ltb n 16)) [
  | inl small ↦ rw small (hex_digit-IsHex n (ground arith), h)
  | inr large ↦ rw large (
      hex_from-IsHex f (n / 16) (hex_digit (n % 16) ∷ acc)
        (hex_digit-IsHex (n % 16) (omega arith), h))
]

digit_value-hex_digit : (d : ℕ) → d < 16 → digit_value (hex_digit d) ≡ some d
digit_value-hex_digit d h = ground arith

value_from-digit :
    (v d n : ℕ) (s : List ℕ)
    → d < 16
    → v * 16 + d ≡ n
    → n < 2 ^ 128
    → value_from v (hex_digit d ∷ s) ≡ value_from n s
unfolding value_from
value_from-digit v d n s h e fits = rw (digit_value-hex_digit d h, e) (ground arith)

pub pow_hex : (f : ℕ) → 16 ^ suc f ≡ 16 * 16 ^ f
pow_hex f = omega arith

value_from-hex_from :
    (f n : ℕ) (acc : List ℕ)
    → n < 16 ^ f
    → 0 < f
    → n < 2 ^ 128
    → value_from 0 (hex_from f n acc) ≡ value_from n acc
unfolding hex_from
value_from-hex_from zero n acc h p fits = absurd (omega arith)
value_from-hex_from (suc f) n acc h p fits = elim (Bool-cases (ltb n 16)) [
  | inl small ↦ rw small (value_from-digit 0 n n acc (ground arith) (omega arith) fits)
  | inr large ↦ rw large (
      value_from-hex_from f (n / 16) (hex_digit (n % 16) ∷ acc) (omega (arith, pow_hex f))
        (more f h large) (omega arith)
      ∙ value_from-digit (n / 16) (n % 16) n acc (omega arith) (omega arith) fits)
]
  where
    more : (f : ℕ) → n < 16 ^ suc f → ltb n 16 ≡ false → 0 < f
    more zero l e = absurd (ground arith)
    more (suc f) l e = omega arith

hex_from-nonempty : (f n : ℕ) (acc : List ℕ) → 0 < length acc → 0 < length (hex_from f n acc)
unfolding hex_from
hex_from-nonempty zero n acc h = h
hex_from-nonempty (suc f) n acc h =
    ground (arith, hex_from-nonempty f (n / 16) (hex_digit (n % 16) ∷ acc))

print_hex-nonempty : (f n : ℕ) → 0 < length (hex_from (suc f) n [])
unfolding hex_from
print_hex-nonempty f n = ground (arith, hex_from-nonempty f (n / 16) (hex_digit (n % 16) ∷ []))

no_sign : (c : ℕ) → IsHex c → (c == b'+') ≡ false
no_sign c (inl h) = ground arith
no_sign c (inr h) = ground arith

parse_hex-IsHex : (s : List ℕ) → All IsHex s → 0 < length s → parse_hex s ≡ value_from 0 s
unfolding parse_hex
parse_hex-IsHex [] h l = absurd (omega arith)
parse_hex-IsHex (c ∷ []) h l = rw (no_sign c h.0)
parse_hex-IsHex (c ∷ d ∷ s) h l = rw (no_sign c h.0)

pub print_hex-IsHex : (n : ℕ) → All IsHex (print_hex n)
unfolding print_hex
print_hex-IsHex n = hex_from-IsHex 32 n [] tt

-- A number of 128 bits is read back from its digits.
pub parse_hex-print_hex : (n : ℕ) → n < 2 ^ 128 → parse_hex (print_hex n) ≡ some n
unfolding print_hex value_from
parse_hex-print_hex n h =
    parse_hex-IsHex (hex_from 32 n []) (hex_from-IsHex 32 n [] tt) (print_hex-nonempty 31 n)
    ∙ value_from-hex_from 32 n [] (omega arith) (omega arith) h

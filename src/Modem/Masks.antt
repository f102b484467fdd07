-- ===== src/Modem/Masks.antt =====
-- server/src/lte.rs: what the bitmask of a list of bands keeps of it.
use sctl.Prelude.{
  ℕ, zero, suc, ◌+◌, ◌-◌, ◌^◌, ◌<◌, ◌≡◌, refl, ap, ◌∙◌, ◌&&◌, ◌||◌, List, [], ◌∷◌, leb, ltb, ◌==◌,
  if◌then◌else◌, contains, arith, Bool-cases, inl, inr,
}
use sctl.Modem.Bits.{test_bit, set_bit, test_bit-zero, test_bit-set_bit, set_bit-lt, bits_eq}
use sctl.Modem.Bands.{mask_from, mask_of, bands_from}

abbrev add_band : ℕ → ℕ → ℕ
add_band mask b = if leb 1 b && leb b 128 then set_bit (b - 1) mask else mask

test_bit-add_band :
    (j mask b : ℕ) → j < 128 → test_bit j (add_band mask b) ≡ ((b == suc j) || test_bit j mask)
test_bit-add_band j mask b h = ground (arith, test_bit-set_bit j (b - 1) mask)

test_bit-mask_from :
    (bs : List ℕ) (j mask : ℕ)
    → j < 128
    → test_bit j (mask_from mask bs) ≡ (contains (suc j) bs || test_bit j mask)
test_bit-mask_from [] j mask h = refl
test_bit-mask_from (b ∷ bs) j mask h =
    ground (arith, test_bit-mask_from bs j (add_band mask b), test_bit-add_band j mask b)

pub test_bit-mask_of :
    (bs : List ℕ) (j : ℕ) → j < 128 → test_bit j (mask_of bs) ≡ contains (suc j) bs
unfolding mask_of
test_bit-mask_of bs j h = ground (arith, test_bit-mask_from bs j 0, test_bit-zero j)

mask_from-lt : (bs : List ℕ) (mask : ℕ) → mask < 2 ^ 128 → mask_from mask bs < 2 ^ 128
mask_from-lt [] mask h = h
mask_from-lt (b ∷ bs) mask h =
    mask_from-lt bs (add_band mask b) (ground (arith, set_bit-lt 128 (b - 1) mask))

pub mask_of-lt : (bs : List ℕ) → mask_of bs < 2 ^ 128
unfolding mask_of
mask_of-lt bs = mask_from-lt bs 0 (omega arith)

-- The bands read from a mask are those whose bits are set.
pub contains-bands_from :
    (k bit mask b : ℕ)
    → contains b (bands_from k bit mask) ≡ (ltb bit b && leb b (bit + k) && test_bit (b - 1) mask)
unfolding bands_from
contains-bands_from zero bit mask b = ground arith
contains-bands_from (suc k) bit mask b = elim (Bool-cases (bit + 1 == b)) [
  | inl same ↦
      let e : bit ≡ b - 1 = ground arith in
      ground (arith, contains-bands_from k (suc bit) mask b, ap (λ i. test_bit i mask) e)
  | inr other ↦ ground (arith, contains-bands_from k (suc bit) mask b)
]

pub mask_of-bands_from : (mask : ℕ) → mask < 2 ^ 128 → mask_of (bands_from 128 0 mask) ≡ mask
mask_of-bands_from mask h =
    bits_eq 128 (mask_of (bands_from 128 0 mask)) mask (mask_of-lt (bands_from 128 0 mask)) h λ j l.
      test_bit-mask_of (bands_from 128 0 mask) j l
      ∙ contains-bands_from 128 0 mask (suc j)
      ∙ (let e : suc j - 1 ≡ j = omega arith in ground (arith, ap (λ i. test_bit i mask) e))

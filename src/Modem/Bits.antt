-- ===== src/Modem/Bits.antt =====
-- Single bits of a number, as a bitmask of bands uses them: `mask & (1 << i)` and `mask |= 1 << i`.
use sctl.Prelude.{
  ℕ, zero, suc, ◌+◌, ◌*◌, ◌/◌, ◌%◌, ◌^◌, ◌<◌, ◌≡◌, refl, Bool, false, ◌||◌, arith, ◌==◌,
  if◌then◌else◌,
}

unfoldable pub test_bit : ℕ → ℕ → Bool
test_bit zero m = m % 2 == 1
test_bit (suc i) m = test_bit i (m / 2)

unfoldable pub set_bit : ℕ → ℕ → ℕ
set_bit zero m = if m % 2 == 1 then m else m + 1
set_bit (suc i) m = m % 2 + 2 * set_bit i (m / 2)

pub test_bit-zero : (i : ℕ) → test_bit i 0 ≡ false
unfolding test_bit
test_bit-zero zero = refl
test_bit-zero (suc i) = test_bit-zero i

odd_part : (m x : ℕ) → ((m % 2 + 2 * x) / 2 ≡ x) × ((m % 2 + 2 * x) % 2 ≡ m % 2)
odd_part m x = (omega arith, omega arith)

pub test_bit-set_bit : (j i m : ℕ) → test_bit j (set_bit i m) ≡ ((i == j) || test_bit j m)
unfolding test_bit set_bit
test_bit-set_bit zero zero m = ground arith
test_bit-set_bit zero (suc i) m = ground (arith, odd_part m (set_bit i (m / 2)))
test_bit-set_bit (suc j) zero m = ground arith
test_bit-set_bit (suc j) (suc i) m =
    ground (arith, odd_part m (set_bit i (m / 2)), test_bit-set_bit j i (m / 2))

pub pow_suc : (w : ℕ) → 2 ^ suc w ≡ 2 * 2 ^ w
pow_suc w = omega arith

pub set_bit-lt : (w i m : ℕ) → i < w → m < 2 ^ w → set_bit i m < 2 ^ w
unfolding set_bit
set_bit-lt zero i m h l = absurd (omega arith)
set_bit-lt (suc w) zero m h l = ground (arith, pow_suc w)
set_bit-lt (suc w) (suc i) m h l =
    omega (arith, pow_suc w, set_bit-lt w i (m / 2) (omega arith) (omega (arith, pow_suc w)))

-- Numbers of `w` bits are equal if all their bits are.
pub bits_eq :
    (w m n : ℕ) → m < 2 ^ w → n < 2 ^ w → ((j : ℕ) → j < w → test_bit j m ≡ test_bit j n) → m ≡ n
unfolding test_bit
bits_eq zero m n hm hn e = omega arith
bits_eq (suc w) m n hm hn e =
    let low : m % 2 ≡ n % 2 = ground (arith, e 0) in
    let high =
      bits_eq w (m / 2) (n / 2) (omega (arith, pow_suc w)) (omega (arith, pow_suc w))
        (λ j h. e (suc j) (omega arith)) in
    omega arith

-- ===== src/Auth/Bytes.antt =====
-- `|` and `^` on bytes, by tables.
use Prim.Native.Nat.{bit_or, bit_xor}
use sctl.Prelude.{ℕ, zero, suc, ◌<◌, ◌≡◌, refl, Bool, true, ◌&&◌, arith, ◌==◌, if◌then◌else◌, ltb}

-- Whether a test holds of every number below the bound.
table : (ℕ → Bool) → ℕ → Bool
table test zero = true
table test (suc k) = table test k && test k

table-entry : (test : ℕ → Bool) (bound i : ℕ) → table test bound ≡ true → i < bound → test i ≡ true
unfolding table
table-entry test zero i holds below = absurd (omega arith)
table-entry test (suc k) i holds below = ground (arith, table-entry test k i)

-- `a ^ b` is a byte, and 0 for equal bytes only.
abbrev xor_ok : ℕ → ℕ → Bool
xor_ok a b =
    ltb (bit_xor a b) 256 && (if bit_xor a b == 0 then a == b else true) && bit_xor a a == 0

-- `a | b` is a byte, and 0 for zeros only.
abbrev or_ok : ℕ → ℕ → Bool
or_ok a b =
    ltb (bit_or a b) 256 && (if bit_or a b == 0 then a == 0 && b == 0 else true) && bit_or 0 0 == 0

xor_table : table (λ a. table (xor_ok a) 256) 256 ≡ true
unfolding table
xor_table = refl

or_table : table (λ a. table (or_ok a) 256) 256 ≡ true
unfolding table
or_table = refl

table_at :
    (f : ℕ → ℕ → Bool)
    → table (λ a. table (f a) 256) 256 ≡ true
    → (a b : ℕ) → a < 256
    → b < 256
    → f a b ≡ true
table_at f t a b ha hb = table-entry (f a) 256 b (table-entry (λ x. table (f x) 256) 256 a t ha) hb

pub bit_xor_bounds :
    (a b : ℕ)
    → a < 256
    → b < 256
    → (bit_xor a b < 256) × (bit_xor a b ≡ 0 → a ≡ b) × (bit_xor a a ≡ 0)
bit_xor_bounds a b ha hb = ground (arith, table_at xor_ok xor_table a b ha hb)

pub bit_or_bounds :
    (a b : ℕ)
    → a < 256
    → b < 256
    → (bit_or a b < 256) × (bit_or a b ≡ 0 → (a ≡ 0) × (b ≡ 0)) × (bit_or 0 0 ≡ 0)
bit_or_bounds a b ha hb = ground (arith, table_at or_ok or_table a b ha hb)

-- ===== src/Transfer/Geometry.antt =====
-- server/src/gawdxfer/manager.rs: the chunks of a transfer cut its file into pieces.
use sctl.Prelude.{
  ℕ, zero, suc, ◌+◌, ◌-◌, ◌*◌, ◌/◌, ◌^◌, ◌≤◌, ◌<◌, min, ◌≡◌, refl, sym, ap, ap₂, ◌∙◌, List, [], ◌∷◌,
  ◌++◌, String, some, arith, length, take, drop, drop_all, length-drop,
}
use sctl.Prelude.Ring.{drop-drop, drop_eq}
use sctl.Transfer.Types.{Transfer}
use sctl.Transfer.Start.{compute_chunks}
use sctl.Transfer.Chunks.{chunk_offset, chunk_len}
use sctl.Transfer.Validity.{IsValid, ceil_bounds}

-- The bytes of chunk `i`, as `serve_chunk` asks for them.
abbrev pub chunk_bytes : Transfer → List ℕ → ℕ → List ℕ
chunk_bytes t content i = take (chunk_len t i) (drop (chunk_offset t i) content)

-- The bytes of `n` chunks from chunk `i` on, one after the other.
abbrev pub chunks_from : Transfer → List ℕ → ℕ → ℕ → List ℕ
chunks_from t content i zero = []
chunks_from t content i (suc n) = chunk_bytes t content i ++ chunks_from t content (suc i) n

take_zero : (n : ℕ) → n ≡ 0 → take {A = ℕ} n [] ≡ []
take_zero zero h = refl
take_zero (suc n) h = refl

take_eq : (a b : ℕ) (xs : List ℕ) → a ≡ b → take a xs ≡ take b xs
take_eq a b xs e = ap (λ n. take n xs) e

take-min-append-drop : (c : ℕ) (xs : List ℕ) → take (min c (length xs)) xs ++ drop c xs ≡ xs
take-min-append-drop zero xs = ap (λ ys. ys ++ xs) (take_eq (min 0 (length xs)) 0 xs (omega arith))
take-min-append-drop (suc c) [] = ap (λ ys. ys ++ []) (take_zero (min (suc c) 0) (omega arith))
take-min-append-drop (suc c) (x ∷ xs) =
    ap (λ ys. ys ++ drop c xs)
      (take_eq (min (suc c) (suc (length xs))) (suc (min c (length xs))) (x ∷ xs) (omega arith))
    ∙ ap (◌∷◌ x) (take-min-append-drop c xs)

-- Enough chunks of size `c` reach the end of a file of `f` bytes, and no chunk starts past it.
ceil-covers : (f c : ℕ) → 0 < f → 0 < c → f ≤ (f + c - 1) / c * c
ceil-covers f c hf hc = grind arith

ceil-starts : (f c i : ℕ) → 0 < f → 0 < c → i < (f + c - 1) / c → i * c < f
ceil-starts f c i hf hc h = grind arith

pub total_chunks-covers : (f c n : ℕ) → f < 2 ^ 32 → compute_chunks f c ≡ some n → f ≤ n * c
unfolding compute_chunks
total_chunks-covers f c n h e = ground (arith, ceil_bounds f c, ceil-covers f c)

pub total_chunks-starts :
    (f c n i : ℕ) → f < 2 ^ 32 → compute_chunks f c ≡ some n → 0 < f → i < n → i * c < f
unfolding compute_chunks
total_chunks-starts f c n i h e hf hi = ground (arith, ceil_bounds f c, ceil-starts f c i)

pub chunk_size_pos : (f c n : ℕ) → compute_chunks f c ≡ some n → 0 < f → 0 < c
unfolding compute_chunks
chunk_size_pos f c n e h = ground arith

module _ (t : Transfer) (content : List ℕ) (whole : length content ≡ t.spec.file_size) where
  -- A chunk and what lies behind it make up what lies from its start on.
  chunk_bytes-append :
      (i : ℕ)
      → chunk_bytes t content i ++ drop (chunk_offset t (suc i)) content
        ≡ drop (chunk_offset t i) content
  chunk_bytes-append i =
      let c = t.spec.chunk_size in
      let xs = drop (i * c) content in
      ap₂ (λ n ys. take n xs ++ ys) (omega (arith, length-drop (i * c) content))
        (drop_eq (suc i * c) (c + i * c) content (omega arith) ∙ sym (drop-drop c (i * c) content))
      ∙ take-min-append-drop c xs

  chunks_from-drop :
      (n i : ℕ)
      → t.spec.file_size ≤ (i + n) * t.spec.chunk_size
      → chunks_from t content i n ≡ drop (chunk_offset t i) content
  chunks_from-drop zero i h = sym (drop_all (chunk_offset t i) content (omega arith))
  chunks_from-drop (suc n) i h =
      ap (◌++◌ (chunk_bytes t content i)) (chunks_from-drop n (suc i) (omega arith))
      ∙ chunk_bytes-append i

  -- The chunks of a well formed transfer of a file below 2^32 bytes, one after the other, are the
  -- file: none is missing at the end, and none overlaps another.
  pub chunks_from-whole :
      (id : String)
      → IsValid id t
      → t.spec.file_size < 2 ^ 32
      → chunks_from t content 0 t.spec.total_chunks ≡ content
  chunks_from-whole id v small =
      chunks_from-drop t.spec.total_chunks 0 (
        omega (
          arith,
          total_chunks-covers t.spec.file_size t.spec.chunk_size t.spec.total_chunks small
              v.counted,
        ))
      ∙ drop_eq (0 * t.spec.chunk_size) 0 content (omega arith)

-- Every chunk of a well formed transfer of a file below 2^32 bytes lies inside the file, is no longer
-- than the chunk size, and is not empty unless the file is.
pub chunk_len_bounds :
    (id : String) (t : Transfer) (i : ℕ)
    → IsValid id t
    → t.spec.file_size < 2 ^ 32
    → 0 < t.spec.file_size
    → i < t.spec.total_chunks
    → (chunk_offset t i + chunk_len t i ≤ t.spec.file_size)
      × (chunk_len t i ≤ t.spec.chunk_size)
      × (0 < chunk_len t i)
chunk_len_bounds id t i v small pos h =
    let f = t.spec.file_size in
    let c = t.spec.chunk_size in
    let starts : i * c < f = total_chunks-starts f c t.spec.total_chunks i small v.counted pos h in
    let size : 0 < c = chunk_size_pos f c t.spec.total_chunks v.counted pos in
    (omega arith, omega arith, omega arith)

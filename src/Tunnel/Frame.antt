-- ===== src/Tunnel/Frame.antt =====
-- server/src/tunnel/mod.rs: binary frames, a header's length in four bytes, the header as JSON, and
-- the payload. A byte is a number below 256; the JSON printer and parser are parameters.
use sctl.Prelude.{
  ap₂, ℕ, ◌+◌, ◌*◌, ◌/◌, ◌%◌, ◌^◌, ◌≤◌, ◌≡◌, refl, ap, ◌∙◌, List, [], ◌∷◌, ◌++◌, Option, none, some,
  arith, ltb, if◌then◌else◌, if-cases, length, take, drop, length-append, true,
}

-- `to_be_bytes` of the length as a `u32`.
abbrev pub to_be_bytes : ℕ → List ℕ
to_be_bytes n = (n / 16777216) % 256 ∷ (n / 65536) % 256 ∷ (n / 256) % 256 ∷ n % 256 ∷ []

abbrev pub max_binary_frame_header : ℕ
max_binary_frame_header = 1048576

abbrev pub from_be_bytes : ℕ → ℕ → ℕ → ℕ → ℕ
from_be_bytes a b c d = a * 16777216 + b * 65536 + c * 256 + d

bytes-number :
    (n : ℕ)
    → n ≤ max_binary_frame_header
    → from_be_bytes
        (n % 2 ^ 32 / 16777216 % 256)
        (n % 2 ^ 32 / 65536 % 256)
        (n % 2 ^ 32 / 256 % 256)
        (n % 2 ^ 32 % 256)
      ≡ n
bytes-number n h = omega (arith, h)

take-append {ℓ} : {A : Type ℓ} (xs ys : List A) → take (length xs) (xs ++ ys) ≡ xs
take-append [] ys = refl
take-append (x ∷ xs) ys = ap (λ zs. x ∷ zs) (take-append xs ys)

drop-append_all {ℓ} : {A : Type ℓ} (xs ys : List A) → drop (length xs) (xs ++ ys) ≡ ys
drop-append_all [] ys = refl
drop-append_all (x ∷ xs) ys = drop-append_all xs ys

module _ {Value : Type 0} (to_vec : Value → List ℕ) (from_slice : List ℕ → Option Value) where
  unfoldable pub encode_binary_frame : Value → List ℕ → List ℕ
  encode_binary_frame header payload =
      let header_bytes = to_vec header in
      to_be_bytes (length header_bytes % 2 ^ 32) ++ header_bytes ++ payload

  abbrev pub with_payload : List ℕ → Option Value → Option (Value × List ℕ)
  with_payload payload none = none
  with_payload payload (some header) = some (header, payload)

  -- The rest of the frame after the length. The sum of 4 and a length of at most 1 MiB does not
  -- overflow.
  unfoldable pub decode_rest : ℕ → List ℕ → Option (Value × List ℕ)
  decode_rest header_len rest =
      if ltb max_binary_frame_header header_len
      then none
      else if ltb (length rest) header_len
      then none
      else with_payload (drop header_len rest) (from_slice (take header_len rest))

  unfoldable pub decode_binary_frame : List ℕ → Option (Value × List ℕ)
  unfolding decode_rest
  decode_binary_frame (a ∷ b ∷ c ∷ d ∷ rest) = decode_rest (from_be_bytes a b c d) rest
  decode_binary_frame _ = none

  decode_rest-whole :
      (header : Value) (payload : List ℕ)
      → from_slice (to_vec header) ≡ some header
      → length (to_vec header) ≤ max_binary_frame_header
      → decode_rest (length (to_vec header)) (to_vec header ++ payload) ≡ some (header, payload)
  unfolding decode_rest
  decode_rest-whole header payload parses short =
      if-cases (λ r. r ≡ some (header, payload)) (ltb max_binary_frame_header n)
        (λ e. absurd (over e))
        (λ _.
          if-cases (λ r. r ≡ some (header, payload)) (ltb (length (to_vec header ++ payload)) n)
            (λ e. absurd (cut e))
            (λ _.
              ap₂ with_payload (drop-append_all (to_vec header) payload)
                (ap from_slice (take-append (to_vec header) payload) ∙ parses)))
    where
      n : ℕ
      n = length (to_vec header)

      over : ltb max_binary_frame_header (length (to_vec header)) ≡ true → ⊥
      over e = ground (arith, e, short)

      cut : ltb (length (to_vec header ++ payload)) (length (to_vec header)) ≡ true → ⊥
      cut e = ground (arith, e, length-append (to_vec header) payload)

  -- A frame whose header has at most 1 MiB is decoded to the header and the payload, if the JSON
  -- parser reads what the printer printed.
  pub decode-encode :
      (header : Value) (payload : List ℕ)
      → from_slice (to_vec header) ≡ some header
      → length (to_vec header) ≤ max_binary_frame_header
      → decode_binary_frame (encode_binary_frame header payload) ≡ some (header, payload)
  unfolding decode_binary_frame encode_binary_frame
  decode-encode header payload parses short =
      ap (λ n. decode_rest n (to_vec header ++ payload))
        (bytes-number (length (to_vec header)) short)
      ∙ decode_rest-whole header payload parses short

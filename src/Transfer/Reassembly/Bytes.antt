-- ===== src/Transfer/Reassembly/Bytes.antt =====
-- Writes of bytes into a file, as a list of bytes: server/src/gawdxfer/manager.rs makes them in
-- `receive_chunk`.
use sctl.Prelude.{
  ℕ, zero, suc, ◌+◌, ◌-◌, ◌≤◌, ◌<◌, ◌≡◌, refl, ap, ap₂, ◌∙◌, ◌&&◌, List, [], ◌∷◌, none, some, arith,
  leb, ltb, if◌then◌else◌, length, take, drop, get_elem?,
}

-- A write of bytes at an offset, as a file takes it: a gap before the offset is filled with zeros.
abbrev pub write_bytes : ℕ → List ℕ → List ℕ → List ℕ
write_bytes o [] file = file
write_bytes zero (b ∷ bs) [] = b ∷ bs
write_bytes zero (b ∷ bs) (x ∷ xs) = b ∷ write_bytes zero bs xs
write_bytes (suc o) (b ∷ bs) [] = 0 ∷ write_bytes o (b ∷ bs) []
write_bytes (suc o) (b ∷ bs) (x ∷ xs) = x ∷ write_bytes o (b ∷ bs) xs

pub length-write_bytes :
    (o : ℕ) (bytes file : List ℕ)
    → o + length bytes ≤ length file
    → length (write_bytes o bytes file) ≡ length file
length-write_bytes o [] file h = refl
length-write_bytes zero (b ∷ bs) [] h = absurd (omega arith)
length-write_bytes zero (b ∷ bs) (x ∷ xs) h = ap suc (length-write_bytes zero bs xs (omega arith))
length-write_bytes (suc o) (b ∷ bs) [] h = absurd (omega arith)
length-write_bytes (suc o) (b ∷ bs) (x ∷ xs) h =
    ap suc (length-write_bytes o (b ∷ bs) xs (omega arith))

-- The bytes that are written, and the others.
pub get_elem?-write_bytes :
    (o : ℕ) (bytes file : List ℕ) (p : ℕ)
    → o + length bytes ≤ length file
    → get_elem? (write_bytes o bytes file) p
      ≡ (if leb o p && ltb p (o + length bytes) then get_elem? bytes (p - o) else get_elem? file p)
get_elem?-write_bytes o [] file p h = ground arith
get_elem?-write_bytes zero (b ∷ bs) [] p h = absurd (omega arith)
get_elem?-write_bytes zero (b ∷ bs) (x ∷ xs) zero h = ground arith
get_elem?-write_bytes zero (b ∷ bs) (x ∷ xs) (suc p) h =
    ground (arith, get_elem?-write_bytes zero bs xs p)
get_elem?-write_bytes (suc o) (b ∷ bs) [] p h = absurd (omega arith)
get_elem?-write_bytes (suc o) (b ∷ bs) (x ∷ xs) zero h = ground arith
get_elem?-write_bytes (suc o) (b ∷ bs) (x ∷ xs) (suc p) h =
    ground (arith, get_elem?-write_bytes o (b ∷ bs) xs p)

pub get_elem?-drop : (o p : ℕ) (xs : List ℕ) → get_elem? (drop o xs) p ≡ get_elem? xs (o + p)
get_elem?-drop zero p xs = let e : p ≡ 0 + p = omega arith in ap (get_elem? xs) e
get_elem?-drop (suc o) p [] = refl
get_elem?-drop (suc o) p (x ∷ xs) =
    let e : suc (o + p) ≡ suc o + p = omega arith in
    get_elem?-drop o p xs ∙ ap (get_elem? (x ∷ xs)) e

pub get_elem?-take : (n p : ℕ) (xs : List ℕ) → p < n → get_elem? (take n xs) p ≡ get_elem? xs p
get_elem?-take zero p xs h = absurd (omega arith)
get_elem?-take (suc n) p [] h = refl
get_elem?-take (suc n) zero (x ∷ xs) h = refl
get_elem?-take (suc n) (suc p) (x ∷ xs) h = get_elem?-take n p xs (omega arith)

pub length-take_within : (n : ℕ) (xs : List ℕ) → n ≤ length xs → length (take n xs) ≡ n
length-take_within zero xs h = refl
length-take_within (suc n) [] h = absurd (omega arith)
length-take_within (suc n) (x ∷ xs) h = ap suc (length-take_within n xs (omega arith))

pub get_elem?-past : (xs : List ℕ) (p : ℕ) → length xs ≤ p → get_elem? xs p ≡ none
get_elem?-past [] p h = refl
get_elem?-past (x ∷ xs) zero h = absurd (omega arith)
get_elem?-past (x ∷ xs) (suc p) h = get_elem?-past xs p (omega arith)

some_inj : (a b : ℕ) → some a ≡ some b → a ≡ b
some_inj a b e = cc

-- Lists with the same items are the same.
pub same_items : (xs ys : List ℕ) → ((p : ℕ) → get_elem? xs p ≡ get_elem? ys p) → xs ≡ ys
same_items [] [] h = refl
same_items [] (y ∷ ys) h = let e = h 0 in cc
same_items (x ∷ xs) [] h = let e = h 0 in cc
same_items (x ∷ xs) (y ∷ ys) h = ap₂ ◌∷◌ (some_inj x y (h 0)) (same_items xs ys (λ p. h (suc p)))

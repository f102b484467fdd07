-- ===== src/Auth/Check.antt =====
-- server/src/auth.rs: what the comparison and the middleware decide.
use Prim.Native.Nat.{bit_or, bit_xor}
use sctl.Prelude.{
  ℕ, zero, suc, ◌+◌, ◌≤◌, ◌<◌, ◌≡◌, refl, sym, ap, ap₂, subst, ◌∙◌, ◌≢◌, true, false, List, [], ◌∷◌,
  ◌++◌, some, arith, ◌==◌, if◌then◌else◌, length, drop, starts_with, All, inl, inr, ◌↔◌, Bool-cases,
}
use native.Mathlib.Decide.{ℕ_discrete}
use sctl.Auth.Bytes.{bit_xor_bounds, bit_or_bounds}
use sctl.Auth.{
  get_or, provided_byte, diff_from, constant_time_eq, missing_token, invalid_token, next, bearer,
  check_key, require_api_key,
}

abbrev pub Bytes : List ℕ → Type 0
Bytes = All (λ b. b < 256)

get_or-byte : (xs : List ℕ) (i : ℕ) → Bytes xs → get_or xs i 0 < 256
get_or-byte [] i h = omega arith
get_or-byte (x ∷ xs) zero h = h.0
get_or-byte (x ∷ xs) (suc i) h = get_or-byte xs i h.1

provided_byte-byte : (xs : List ℕ) (i : ℕ) → Bytes xs → provided_byte xs i < 256
unfolding provided_byte
provided_byte-byte xs i h = ground (arith, get_or-byte xs i h)

-- One round of the loop: the difference is a byte, and 0 only if it was and the bytes agree.
round :
    (e p : List ℕ) (i d : ℕ)
    → Bytes e
    → Bytes p
    → d < 256
    → (bit_or d (bit_xor (get_or e i 0) (provided_byte p i)) < 256)
      × (bit_or d (bit_xor (get_or e i 0) (provided_byte p i)) ≡ 0
          → (d ≡ 0) × (get_or e i 0 ≡ provided_byte p i))
round e p i d he hp hd = ground (
  arith,
  get_or-byte e i he,
  provided_byte-byte p i hp,
  bit_xor_bounds (get_or e i 0) (provided_byte p i),
  bit_or_bounds d (bit_xor (get_or e i 0) (provided_byte p i)),
)

diff_from-zero :
    (n i : ℕ) (e p : List ℕ) (d : ℕ)
    → Bytes e
    → Bytes p
    → d < 256
    → diff_from n i e p d ≡ 0
    → (d ≡ 0) × ((j : ℕ) → i ≤ j → j < i + n → get_or e j 0 ≡ provided_byte p j)
unfolding diff_from
diff_from-zero zero i e p d he hp hd z = (z, λ j h k. absurd (omega arith))
diff_from-zero (suc n) i e p d he hp hd z =
    let r = round e p i d he hp hd in
    let rest = diff_from-zero n (i + 1) e p _ he hp r.0 z in
    let now = r.1 rest.0 in (now.0, λ j h k. at j h k now.1 rest.1)
  where
    at :
        (j : ℕ)
        → i ≤ j
        → j < i + suc n
        → get_or e i 0 ≡ provided_byte p i
        → ((j : ℕ) → i + 1 ≤ j → j < i + 1 + n → get_or e j 0 ≡ provided_byte p j)
        → get_or e j 0 ≡ provided_byte p j
    at j h k here later = elim (ℕ_discrete i j) [
      | yes q ↦ ap (λ k. get_or e k 0) (sym q) ∙ here ∙ ap (provided_byte p) q
      | no q ↦ later j (omega arith) (omega arith)
    ]

diff_from_same : (n i : ℕ) (e : List ℕ) → Bytes e → i + n ≤ length e → diff_from n i e e 0 ≡ 0
unfolding diff_from provided_byte
diff_from_same zero i e he h = refl
diff_from_same (suc n) i e he h = ground (
  arith,
  get_or-byte e i he,
  bit_xor_bounds (get_or e i 0) (get_or e i 0),
  bit_or_bounds 0 0,
  diff_from_same n (i + 1) e he,
)

list_ext :
    (xs ys : List ℕ)
    → length xs ≡ length ys
    → ((j : ℕ) → j < length xs → get_or xs j 0 ≡ get_or ys j 0)
    → xs ≡ ys
list_ext [] [] n h = refl
list_ext [] (y ∷ ys) n h = absurd (omega arith)
list_ext (x ∷ xs) [] n h = absurd (omega arith)
list_ext (x ∷ xs) (y ∷ ys) n h =
    ap₂ ◌∷◌ (h 0 (omega arith)) (list_ext xs ys (omega arith) (λ j k. h (suc j) (omega arith)))

provided_byte-within : (p : List ℕ) (i : ℕ) → i < length p → provided_byte p i ≡ get_or p i 0
unfolding provided_byte
provided_byte-within p i h = ground arith

-- On byte strings, `constant_time_eq` holds exactly when the two are equal: neither the order of
-- the comparison nor the byte 0xff that stands in past the end of `provided` makes a wrong key pass.
pub constant_time_eq_iff :
    (expected provided : List ℕ)
    → Bytes expected
    → Bytes provided
    → (constant_time_eq expected provided ≡ true) ↔ (expected ≡ provided)
unfolding constant_time_eq
constant_time_eq_iff e p he hp = (forth, back)
  where
    forth : constant_time_eq e p ≡ true → e ≡ p
    forth t =
        let start : ℕ = if length e == length p then 0 else 1 in
        let z : diff_from (length e) 0 e p start ≡ 0 = ground arith in
        let r = diff_from-zero (length e) 0 e p start he hp (ground arith) z in
        let n : length e ≡ length p = ground (arith, r.0) in
        list_ext e p n
          (λ j h. r.1 j (omega arith) (omega arith) ∙ provided_byte-within p j (omega (arith, n)))

    back : e ≡ p → constant_time_eq e p ≡ true
    back q = ground (arith, q, diff_from_same (length e) 0 e he (omega arith))

starts_with-append : (ps h : List ℕ) → starts_with ps h ≡ true → h ≡ ps ++ drop (length ps) h
starts_with-append [] h t = refl
starts_with-append (p ∷ ps) [] t = cc
starts_with-append (p ∷ ps) (c ∷ h) t = ground (arith, starts_with-append ps h)

append-starts_with :
    (ps k : List ℕ) → (starts_with ps (ps ++ k) ≡ true) × (drop (length ps) (ps ++ k) ≡ k)
append-starts_with [] k = (refl, refl)
append-starts_with (p ∷ ps) k = ground (arith, append-starts_with ps k)

Bytes-drop : (n : ℕ) (xs : List ℕ) → Bytes xs → Bytes (drop n xs)
Bytes-drop zero xs h = h
Bytes-drop (suc n) [] h = tt
Bytes-drop (suc n) (x ∷ xs) h = Bytes-drop n xs h.1

check_key-next :
    (key provided : List ℕ)
    → Bytes key
    → Bytes provided
    → (check_key key provided ≡ next) ↔ (key ≡ provided)
unfolding check_key
check_key-next key provided hk hp =
    let e = constant_time_eq_iff key provided hk hp in
    (λ t. e.0 (ground arith), λ q. ground (arith, e.1 q))

check_key-missing : (key provided : List ℕ) → check_key key provided ≢ missing_token
unfolding check_key
check_key-missing key provided h = ground arith

check_key-invalid :
    (key provided : List ℕ)
    → Bytes key
    → Bytes provided
    → (check_key key provided ≡ invalid_token) ↔ (key ≢ provided)
unfolding check_key
check_key-invalid key provided hk hp =
    let e = constant_time_eq_iff key provided hk hp in
    (
      λ t q. ground (arith, e.1 q),
      λ ne. elim (Bool-cases (constant_time_eq key provided)) [
        | inl t ↦ absurd (ne (e.0 t))
        | inr f ↦ rw f
      ],
    )

-- With a key configured, a request is let through exactly when its header is `Bearer ` followed
-- by that key; on byte strings.
pub require_api_key-next :
    (key header : List ℕ)
    → Bytes key
    → Bytes header
    → (require_api_key (some key) (some header) ≡ next) ↔ (header ≡ bearer ++ key)
unfolding require_api_key
require_api_key-next key header hk hh = (forth, back)
  where
    forth : require_api_key (some key) (some header) ≡ next → header ≡ bearer ++ key
    forth t = elim (Bool-cases (starts_with bearer header)) [
      | inl b ↦
          let c =
            (check_key-next key (drop 7 header) hk (Bytes-drop 7 header hh)).0 (ground arith) in
          starts_with-append bearer header b ∙ ap (◌++◌ bearer) (sym c)
      | inr f ↦ ground arith
    ]

    back : header ≡ bearer ++ key → require_api_key (some key) (some header) ≡ next
    back e = rw e ((check_key-next key key hk hk).1 refl)

-- With a key configured, the answer to a header is 403 exactly when the header is `Bearer ` followed
-- by another key; and 401 exactly when it does not start with `Bearer `; on byte strings.
pub require_api_key-errors :
    (key header : List ℕ)
    → Bytes key
    → Bytes header
    → ((require_api_key (some key) (some header) ≡ invalid_token)
        ↔ ((other : List ℕ) × (header ≡ bearer ++ other) × (other ≢ key)))
      × ((require_api_key (some key) (some header) ≡ missing_token)
          ↔ (starts_with bearer header ≡ false))
unfolding require_api_key
require_api_key-errors key header hk hh = ((forth, back), (missing, λ f. rw f))
  where
    forth :
        require_api_key (some key) (some header) ≡ invalid_token
        → (other : List ℕ) × (header ≡ bearer ++ other) × (other ≢ key)
    forth t = elim (Bool-cases (starts_with bearer header)) [
      | inl b ↦
          let c =
            (check_key-invalid key (drop 7 header) hk (Bytes-drop 7 header hh)).0 (ground arith) in
          (drop 7 header, starts_with-append bearer header b, λ q. c (sym q))
      | inr f ↦ ground arith
    ]

    back :
        ((other : List ℕ) × (header ≡ bearer ++ other) × (other ≢ key))
        → require_api_key (some key) (some header) ≡ invalid_token
    back w =
        let s = append-starts_with bearer w.0 in
        let b = subst Bytes s.1 (Bytes-drop 7 (bearer ++ w.0) (subst Bytes w.1 hh)) in
        rw w.1 ((check_key-invalid key w.0 hk b).1 (λ q. w.2 (sym q)))

    missing :
        require_api_key (some key) (some header) ≡ missing_token → starts_with bearer header ≡ false
    missing t = elim (Bool-cases (starts_with bearer header)) [
      | inl b ↦ absurd (check_key-missing key (drop 7 header) (ground arith))
      | inr f ↦ f
    ]

-- ===== src/Prelude/Ring.antt =====
-- A bounded queue that drops its oldest item to make room, as the source writes it in several
-- places: `if q.len() >= max { q.pop_front(); } q.push_back(x)`; and items numbered in order.
use sctl.Prelude.Tests.{ltb, leb, if◌then◌else◌}
use sctl.Prelude.Lists.{
  length, drop, pop_front, filter, length-append, length-drop, drop-append, pop_front-drop,
  drop_all,
}
use Prim.Native.Nat.{ℕ, zero, suc, ◌+◌, ◌-◌, ◌≤◌, max}
use mathlib.Core.Path.{◌≡◌, refl, sym, ap, ◌∙◌, subst}
use mathlib.Core.List.{List, [], ◌∷◌, ◌++◌}
use native.Mathlib.Omega.{arith}

-- The room is made before the item is added, so a queue of size 0 still holds one item.
abbrev pub capacity : ℕ → ℕ
capacity m = max 1 m

module _ {A : Type 0} where
  abbrev pub push_bounded : ℕ → List A → A → List A
  push_bounded m q x = (if leb m (length q) then pop_front q else q) ++ (x ∷ [])

  pub drop_eq : (a b : ℕ) (xs : List A) → a ≡ b → drop a xs ≡ drop b xs
  drop_eq a b xs e = ap (λ n. drop n xs) e

  pub drop_zero_of : (k : ℕ) (xs : List A) → k ≡ 0 → drop k xs ≡ xs
  drop_zero_of zero xs h = refl
  drop_zero_of (suc k) xs h = absurd (omega arith)

  drop-suc_of : (k m : ℕ) (x : A) (xs : List A) → k ≡ suc m → drop k (x ∷ xs) ≡ drop m xs
  drop-suc_of zero m x xs h = absurd (omega arith)
  drop-suc_of (suc k) m x xs h = let e : k ≡ m = omega arith in drop_eq k m xs e

  pub drop-drop : (a b : ℕ) (xs : List A) → drop a (drop b xs) ≡ drop (a + b) xs
  drop-drop a zero xs = drop_eq a (a + 0) xs (omega arith)
  drop-drop a (suc b) [] = drop_all a [] (omega arith) ∙ sym (drop_all (a + suc b) [] (omega arith))
  drop-drop a (suc b) (x ∷ xs) =
      drop-drop a b xs ∙ drop_eq (suc (a + b)) (a + suc b) (x ∷ xs) (omega arith)

  made_room :
      (m : ℕ) (h q : List A)
      → q ≡ drop (length h - capacity m) h
      → (if leb m (length q) then pop_front q else q) ≡ drop (suc (length h) - capacity m) h
  made_room m h q e = ground (
    arith,
    ap length e,
    length-drop (length h - capacity m) h,
    pop_front-drop (length h - capacity m) h,
    drop_eq (suc (length h - capacity m)) (suc (length h) - capacity m) h,
    drop_eq (length h - capacity m) (suc (length h) - capacity m) h,
    drop_all (suc (length h - capacity m)) h,
    drop_all (suc (length h) - capacity m) h,
  )

  -- A queue that holds the end of a history holds the end of the longer history after a push.
  pub push_bounded-drop :
      (m : ℕ) (h q : List A) (x : A)
      → q ≡ drop (length h - capacity m) h
      → push_bounded m q x ≡ drop (length (h ++ (x ∷ [])) - capacity m) (h ++ (x ∷ []))
  push_bounded-drop m h q x e =
      ap (λ k. k ++ (x ∷ [])) (made_room m h q e)
      ∙ sym (drop-append (suc (length h) - capacity m) h (x ∷ []) (omega arith))
      ∙ drop_eq _ _ (h ++ (x ∷ [])) (omega (arith, length-append h (x ∷ [])))

  pub length-push_bounded :
      (m : ℕ) (q : List A) (x : A)
      → length q ≤ capacity m
      → length (push_bounded m q x) ≤ capacity m
  length-push_bounded m [] x h = ground arith
  length-push_bounded m (y ∷ q) x h =
      ground (arith, length-append (y ∷ q) (x ∷ []), length-append q (x ∷ []))

-- Items that carry consecutive numbers from `n` on.
module _ {A : Type 0} (key : A → ℕ) where
  abbrev pub Numbered : ℕ → List A → Type 0
  Numbered n [] = Unit {0}
  Numbered n (x ∷ xs) = (key x ≡ n) × Numbered (suc n) xs

  pub Numbered-append :
      (n : ℕ) (xs : List A) (x : A)
      → Numbered n xs
      → key x ≡ n + length xs
      → Numbered n (xs ++ (x ∷ []))
  Numbered-append n [] x h q = (omega arith, tt)
  Numbered-append n (y ∷ xs) x h q = (h.0, Numbered-append (suc n) xs x h.1 (omega arith))

  pub Numbered-drop : (k n : ℕ) (xs : List A) → Numbered n xs → Numbered (k + n) (drop k xs)
  Numbered-drop zero n xs h = let e : n ≡ 0 + n = omega arith in subst (λ m. Numbered m xs) e h
  Numbered-drop (suc k) n [] h = tt
  Numbered-drop (suc k) n (x ∷ xs) h =
      let e : k + suc n ≡ suc k + n = omega arith in
      subst (λ m. Numbered m (drop k xs)) e (Numbered-drop k (suc n) xs h.1)

  -- Reading by number is dropping by position.
  pub filter-Numbered :
      (since n : ℕ) (xs : List A)
      → Numbered (suc n) xs
      → filter (λ x. ltb since (key x)) xs ≡ drop (since - n) xs
  filter-Numbered since n [] h = sym (drop_all (since - n) [] (omega arith))
  filter-Numbered since n (x ∷ xs) h = ground (
    arith,
    h.0,
    filter-Numbered since (suc n) xs h.1,
    drop_zero_of (since - n) (x ∷ xs),
    drop_zero_of (since - suc n) xs,
    drop-suc_of (since - n) (since - suc n) x xs,
  )

  -- What a reader at `since` gets of a history numbered from 1 whose start is cut off.
  pub filter-drop-Numbered :
      (since lost : ℕ) (h : List A)
      → Numbered 1 h
      → filter (λ x. ltb since (key x)) (drop lost h) ≡ drop (max since lost) h
  filter-drop-Numbered since lost h v =
      let e : lost + 1 ≡ suc lost = omega arith in
      filter-Numbered since lost (drop lost h)
        (subst (λ n. Numbered n (drop lost h)) e (Numbered-drop lost 1 h v))
      ∙ drop-drop (since - lost) lost h
      ∙ drop_eq (since - lost + lost) (max since lost) h (omega arith)

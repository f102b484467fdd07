-- ===== src/Prelude/Split.antt =====
-- The splitting and trimming of texts that the parsers share. A text is the list of its codes; the
-- texts that they read are ASCII, so a blank is an ASCII blank.
use Prim.Native.Nat.{ℕ, ◌+◌, ◌-◌, ◌*◌}
use mathlib.Core.Bool.{Bool, true, ◌||◌, ◌&&◌}
use mathlib.Core.List.{List, [], ◌∷◌, ◌++◌}
use mathlib.Core.Option.{Option, none, some}
use sctl.Prelude.Tests.{◌==◌, ltb, leb, if◌then◌else◌}
use sctl.Prelude.Text.{starts_with}

-- `split(c)`, with the part read so far as the second argument.
abbrev pub split_from : ℕ → List ℕ → List ℕ → List (List ℕ)
split_from c cur [] = cur ∷ []
split_from c cur (x ∷ s) =
    if x == c then cur ∷ split_from c [] s else split_from c (cur ++ (x ∷ [])) s

abbrev pub split : ℕ → List ℕ → List (List ℕ)
split c s = split_from c [] s

-- `contains(sub)` for a text
abbrev pub contains_text : List ℕ → List ℕ → Bool
contains_text sub [] = starts_with sub []
contains_text sub (x ∷ s) = if starts_with sub (x ∷ s) then true else contains_text sub s

abbrev pub is_blank : ℕ → Bool
is_blank c = c == 32 || (leb 9 c && leb c 13)

abbrev pub trim_start : List ℕ → List ℕ
trim_start [] = []
trim_start (x ∷ s) = if is_blank x then trim_start s else x ∷ s

-- The blanks at the end of what is left of the text are dropped.
abbrev pub trim_end : List ℕ → List ℕ
trim_end [] = []
trim_end (x ∷ s) = elim (trim_end s) [
  | [] ↦ if is_blank x then [] else x ∷ []
  | ◌∷◌ y ys ↦ x ∷ y ∷ ys
]

abbrev pub trim : List ℕ → List ℕ
trim s = trim_end (trim_start s)

-- `lines()`: a carriage return before the line's end is not part of the line, and a final line end
-- starts no new line.
abbrev pub strip_cr : List ℕ → List ℕ
strip_cr [] = []
strip_cr (x ∷ []) = if x == 13 then [] else x ∷ []
strip_cr (x ∷ y ∷ s) = x ∷ strip_cr (y ∷ s)

abbrev pub lines_from : List ℕ → List ℕ → List (List ℕ)
lines_from [] [] = []
lines_from (c ∷ cur) [] = (c ∷ cur) ∷ []
lines_from cur (x ∷ s) =
    if x == 10 then strip_cr cur ∷ lines_from [] s else lines_from (cur ++ (x ∷ [])) s

abbrev pub lines : List ℕ → List (List ℕ)
lines s = lines_from [] s

abbrev pub find {ℓ} : {A : Type ℓ} → (A → Bool) → List A → Option A
find p [] = none
find p (x ∷ xs) = if p x then some x else find p xs

-- The digits of a number in base 10, below the limit; `none` for any other character or a number
-- that is too large.
abbrev pub digits_from : ℕ → ℕ → List ℕ → Option ℕ
digits_from limit n [] = some n
digits_from limit n (c ∷ s) =
    let next = n * 10 + (c - b'0') in
    let rest = digits_from limit next s in
    if leb b'0' c && leb c b'9' && ltb next limit then rest else none

-- `parse()` of an unsigned integer below the limit: a leading `+` is accepted, an empty text is not.
abbrev pub parse_unsigned : ℕ → List ℕ → Option ℕ
parse_unsigned limit [] = none
parse_unsigned limit (c ∷ []) = if c == b'+' then none else digits_from limit 0 (c ∷ [])
parse_unsigned limit (c ∷ d ∷ s) =
    if c == b'+' then digits_from limit 0 (d ∷ s) else digits_from limit 0 (c ∷ d ∷ s)

-- ===== src/Modem/Answers.antt =====
-- server/src/lte.rs: the modem's answer to `AT+QCFG="band"`, read back.
use sctl.Prelude.{
  sym, ℕ, zero, suc, ltb, ◌-◌, ◌≤◌, ◌≡◌, refl, ap, ◌∙◌, true, false, ◌&&◌, List, [], ◌∷◌, ◌++◌, leb,
  ◌==◌, contains, codes, lines, lines_from, split_from, split, trim, trim_end, is_blank, arith, All,
  inl, inr, append_assoc, append-nil, ◌⊎◌,
}
use sctl.Modem.Hex.{IsHex, print_hex, print_hex-IsHex, parse_hex, parse_hex-print_hex}
use sctl.Modem.Bands.{
  mask_of, bands_to_hex, decode_bands, parse_band_config, trim_start_pair, trim_end_char, trim_char,
  bands_of, is_band_line,
}
use sctl.Modem.Bits.{test_bit}
use sctl.Modem.Masks.{mask_of-lt, test_bit-mask_of, contains-bands_from}

-- The characters that are not `c`.
abbrev Not : ℕ → ℕ → Type 0
Not c x = (x == c) ≡ false

All-append {ℓ} :
    {A : Type ℓ} (P : A → Type 0) (xs ys : List A) → All P xs → All P ys → All P (xs ++ ys)
All-append P [] ys h k = k
All-append P (x ∷ xs) ys h k = (h.0, All-append P xs ys h.1 k)

All-map : (P Q : ℕ → Type 0) → ((c : ℕ) → P c → Q c) → (s : List ℕ) → All P s → All Q s
All-map P Q f [] h = tt
All-map P Q f (c ∷ s) h = (f c h.0, All-map P Q f s h.1)

-- A digit is none of the characters that the parser looks for.
hex-Not : (c : ℕ) → (x : ℕ) → IsHex x → ((c ≤ b'/') ⊎ (b'G' ≤ c)) ⊎ (c ≡ b':') → Not c x
hex-Not c x (inl h) (inl (inl k)) = ground arith
hex-Not c x (inl h) (inl (inr k)) = ground arith
hex-Not c x (inl h) (inr k) = ground arith
hex-Not c x (inr h) (inl (inl k)) = ground arith
hex-Not c x (inr h) (inl (inr k)) = ground arith
hex-Not c x (inr h) (inr k) = ground arith

lines_from-plain :
    (c : ℕ) (cur s : List ℕ) → All (Not 10) s → lines_from (c ∷ cur) s ≡ ((c ∷ cur) ++ s) ∷ []
lines_from-plain c cur [] h = simp (append-nil)
lines_from-plain c cur (x ∷ s) h =
    rw h.0 (lines_from-plain c (cur ++ (x ∷ [])) s h.1 ∙ simp (append_assoc))

split_from-plain : (c : ℕ) (cur s : List ℕ) → All (Not c) s → split_from c cur s ≡ (cur ++ s) ∷ []
split_from-plain c cur [] h = simp (append-nil)
split_from-plain c cur (x ∷ s) h =
    rw h.0 (split_from-plain c (cur ++ (x ∷ [])) s h.1 ∙ simp (append_assoc))

split_from-append :
    (c : ℕ) (cur s t : List ℕ)
    → All (Not c) s
    → split_from c cur (s ++ (c ∷ t)) ≡ (cur ++ s) ∷ split_from c [] t
split_from-append c cur [] t h = ground (arith, append-nil cur)
split_from-append c cur (x ∷ s) t h =
    rw h.0 (split_from-append c (cur ++ (x ∷ [])) s t h.1 ∙ simp (append_assoc))

trim_end-plain : (s : List ℕ) → All (λ x. is_blank x ≡ false) s → trim_end s ≡ s
trim_end-plain [] h = refl
trim_end-plain (x ∷ []) h = rw h.0
trim_end-plain (x ∷ y ∷ s) h = ground (arith, h.0, trim_end-plain (y ∷ s) h.1)

trim_end_char-plain : (c : ℕ) (s : List ℕ) → All (Not c) s → trim_end_char c s ≡ s
trim_end_char-plain c [] h = refl
trim_end_char-plain c (x ∷ []) h = rw h.0
trim_end_char-plain c (x ∷ y ∷ s) h = ground (arith, h.0, trim_end_char-plain c (y ∷ s) h.1)

trim_start_pair-plain : (a b : ℕ) (s : List ℕ) → All (Not b) s → trim_start_pair a b s ≡ s
trim_start_pair-plain a b [] h = refl
trim_start_pair-plain a b (x ∷ []) h = refl
trim_start_pair-plain a b (x ∷ y ∷ s) h = ground (arith, h.1.0)

hex-blank : (x : ℕ) → IsHex x → is_blank x ≡ false
hex-blank x (inl h) = ground arith
hex-blank x (inr h) = ground arith

-- The parser on a line whose parts are known.
parse_band_config-parts :
    (response line a f p q r t : List ℕ)
    → lines response ≡ line ∷ []
    → is_band_line line ≡ true
    → split b':' line ≡ a ∷ f ∷ []
    → split b',' f ≡ p ∷ q ∷ r ∷ t ∷ []
    → trim r ≡ r
    → parse_band_config response ≡ decode_bands r
unfolding parse_band_config
parse_band_config-parts response line a f p q r t h band colon comma blank =
    rw (h, band, colon, comma, blank)

-- The answer that carries the digits of a mask.
abbrev pub fields : List ℕ → List ℕ
fields digits = codes " \"band\",0x260,0x" ++ (digits ++ codes ",0x0")

abbrev pub answer : List ℕ → List ℕ
answer digits = codes "+QCFG:" ++ fields digits

module _ (digits : List ℕ) (hex : All IsHex digits) where
  without : (c : ℕ) → ((c ≤ b'/') ⊎ (b'G' ≤ c)) ⊎ (c ≡ b':') → All (Not c) digits
  without c h = All-map IsHex (Not c) (λ x k. hex-Not c x k h) digits hex

  plain_end :
      (c : ℕ)
      → All (Not c) digits
      → All (Not c) (codes ",0x0")
      → All (Not c) (digits ++ codes ",0x0")
  plain_end c h k = All-append (Not c) digits (codes ",0x0") h k

  answer-lines : lines (answer digits) ≡ answer digits ∷ []
  answer-lines =
      lines_from-plain b'+' (codes "QCFG: \"band\",0x260,0x") (digits ++ codes ",0x0")
        (plain_end 10 (without 10 (inl (inl (omega arith)))) (refl, (refl, (refl, (refl, tt)))))

  answer-parts : split b':' (answer digits) ≡ codes "+QCFG" ∷ fields digits ∷ []
  answer-parts = ap (◌∷◌ (codes "+QCFG")) (
      split_from-plain b':' (codes " \"band\",0x260,0x") (digits ++ codes ",0x0")
        (plain_end b':' (without b':' (inr refl)) (refl, (refl, (refl, (refl, tt))))))

  fields-parts :
      split b',' (fields digits)
      ≡ codes " \"band\"" ∷ codes "0x260" ∷ (codes "0x" ++ digits) ∷ codes "0x0" ∷ []
  fields-parts =
      ap (λ ps. codes " \"band\"" ∷ codes "0x260" ∷ ps)
        (split_from-append b',' (codes "0x") digits (codes "0x0")
          (without b',' (inl (inl (omega arith)))))

  field-trim : trim (codes "0x" ++ digits) ≡ codes "0x" ++ digits
  field-trim =
      trim_end-plain (codes "0x" ++ digits)
        (refl, (refl, All-map IsHex (λ x. is_blank x ≡ false) hex-blank digits hex))

  parse_band_config-answer : parse_band_config (answer digits) ≡ decode_bands (codes "0x" ++ digits)
  parse_band_config-answer =
      parse_band_config-parts (answer digits) (answer digits) (codes "+QCFG") (fields digits)
        (codes " \"band\"") (codes "0x260") (codes "0x" ++ digits) (codes "0x0") answer-lines refl
        answer-parts fields-parts field-trim

  decode_bands-hex : decode_bands (codes "0x" ++ digits) ≡ bands_of (parse_hex digits)
  unfolding decode_bands
  decode_bands-hex =
      let quoted : trim_char b'"' (codes "0x" ++ digits) ≡ codes "0x" ++ digits =
        trim_end_char-plain b'"' (codes "0x" ++ digits)
          (refl, (refl, without b'"' (inl (inl (omega arith))))) in
      let lower = trim_start_pair-plain b'0' b'x' digits (without b'x' (inl (inr (omega arith)))) in
      let upper = trim_start_pair-plain b'0' b'X' digits (without b'X' (inl (inr (omega arith)))) in
      ap (λ s. bands_of (parse_hex (trim_start_pair b'0' b'X' (trim_start_pair b'0' b'x' s))))
        quoted
      ∙ ap (λ s. bands_of (parse_hex (trim_start_pair b'0' b'X' s))) lower
      ∙ ap (λ s. bands_of (parse_hex s)) upper

-- When the modem answers with the digits that a command for `bs` carries, the bands that are read
-- are exactly the bands of `bs` from 1 to 128.
pub contains-parse_band_config :
    (bs : List ℕ) (b : ℕ)
    → contains b (parse_band_config (answer (bands_to_hex bs)))
      ≡ (leb 1 b && leb b 128 && contains b bs)
unfolding bands_to_hex
contains-parse_band_config bs b =
    ap (contains b) (
      parse_band_config-answer (print_hex (mask_of bs)) (print_hex-IsHex (mask_of bs))
      ∙ decode_bands-hex (print_hex (mask_of bs)) (print_hex-IsHex (mask_of bs))
      ∙ ap bands_of (parse_hex-print_hex (mask_of bs) (mask_of-lt bs)))
    ∙ contains-bands_from 128 0 (mask_of bs) b
    ∙ in_range b
  where
    in_range :
        (b : ℕ)
        → (ltb 0 b && leb b 128 && test_bit (b - 1) (mask_of bs))
          ≡ (leb 1 b && leb b 128 && contains b bs)
    in_range zero = ground arith
    in_range (suc j) =
        let e : suc j - 1 ≡ j = omega arith in
        ground (arith, ap (λ i. test_bit i (mask_of bs)) e, test_bit-mask_of bs j)

-- Equal digits stand for the same bands.
pub bands_to_hex-same :
    (cs bs : List ℕ)
    → bands_to_hex cs ≡ bands_to_hex bs
    → (b : ℕ) → (leb 1 b && leb b 128 && contains b cs) ≡ (leb 1 b && leb b 128 && contains b bs)
bands_to_hex-same cs bs h b =
    sym (contains-parse_band_config cs b)
    ∙ ap (λ hex. contains b (parse_band_config (answer hex))) h
    ∙ contains-parse_band_config bs b

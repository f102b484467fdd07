-- ===== src/Modem/Registration.antt =====
-- server/src/lte.rs: whether the dialogues that change the modem's bands tell it in the end to
-- register. The source ignores the outcome of AT+COPS=2 and AT+COPS=0, so the theorems are about
-- what is sent: whether the modem does it is not in them.
use sctl.Prelude.{
  codes_eq→eq, ℕ, leb, refl, contains, ◌≡◌, Bool, true, false, not, ◌&&◌, ◌||◌, List, [], ◌∷◌,
  Option, none, some, arith,
}
use sctl.Modem.Bands.{bands_to_hex}
use sctl.Modem.Answers.{bands_to_hex-same}
use sctl.Modem.Dialogue.{
  Command, read_bands, write_bands, read_priority, write_priority, read_registration, deregister,
  register, restart_interface, Line, write_failed, read_back_failed, retry_write_failed,
  retry_read_back_failed, rejected, read_bands_failed, read_priority_failed, timed_out, Result, ok,
  err, command,
}
use sctl.Modem.Change.{
  VerifiedSetResult, Applied, retry_set_bands, verified_set_bands, roll_back, apply_bands_fast,
  add_bands,
}

-- Which of AT+COPS=0 (`true`) and AT+COPS=2 (`false`) was sent last, whether or not it succeeded;
-- `b` if neither was. The latest command comes first.
abbrev pub told_to_register : Bool → List Command → Bool
told_to_register b [] = b
told_to_register b (register ∷ sent) = true
told_to_register b (deregister ∷ sent) = false
told_to_register b (read_bands ∷ sent) = told_to_register b sent
told_to_register b (write_bands hex ∷ sent) = told_to_register b sent
told_to_register b (read_priority ∷ sent) = told_to_register b sent
told_to_register b (write_priority band ∷ sent) = told_to_register b sent
told_to_register b (read_registration ∷ sent) = told_to_register b sent
told_to_register b (restart_interface ∷ sent) = told_to_register b sent

-- What was sent last, by the result of `verified_set_bands`.
abbrev pub left_told : Bool → Result VerifiedSetResult → Bool
left_told b (ok r) = not r.did_deregister && b
left_told b (err write_failed) = b
left_told b (err read_back_failed) = b
left_told b (err retry_write_failed) = false
left_told b (err retry_read_back_failed) = false
left_told b (err rejected) = true
left_told b (err read_bands_failed) = b
left_told b (err read_priority_failed) = b
left_told b (err timed_out) = b

-- The bands that can be set.
abbrev pub has_band : ℕ → List ℕ → Bool
has_band c bands = leb 1 c && leb c 128 && contains c bands

-- A result that succeeds has the bands that were asked for.
abbrev pub ReadBack : List ℕ → Result VerifiedSetResult → Type 0
ReadBack bands (ok v) = (c : ℕ) → has_band c v.bands ≡ has_band c bands
ReadBack bands (err e) = Unit {0}

module _ {S : Type 0} (answer : S → Command → S × Option (List ℕ)) where
  retry-told_to_register :
      (hex : List ℕ) (l : Line S) (b c : Bool)
      → let r = retry_set_bands answer hex l in told_to_register b r.1.sent ≡ left_told c r.0
  unfolding retry_set_bands
  retry-told_to_register hex l b c = ground arith

  -- The line when the bands have been written and read back.
  abbrev after_read_back : List ℕ → Line S → Line S
  after_read_back bands l =
      (command answer read_back_failed read_bands
        (command answer write_failed (write_bands (bands_to_hex bands)) l).1).1

  pub verified_set_bands-told_to_register :
      (bands : List ℕ) (l : Line S) (b : Bool)
      → let r = verified_set_bands answer bands l in
        told_to_register b r.1.sent ≡ left_told (told_to_register b l.sent) r.0
  unfolding verified_set_bands
  verified_set_bands-told_to_register bands l b = ground (
    arith,
    retry-told_to_register (bands_to_hex bands) (after_read_back bands l) b
        (told_to_register b l.sent),
  )

  retry-hex :
      (hex : List ℕ) (l : Line S) {v : VerifiedSetResult}
      → (retry_set_bands answer hex l).0 ≡ ok v
      → bands_to_hex v.bands ≡ hex
  unfolding retry_set_bands
  retry-hex hex l h = grind (arith, codes_eq→eq)

  pub verified_set_bands-hex :
      (bands : List ℕ) (l : Line S) {v : VerifiedSetResult}
      → (verified_set_bands answer bands l).0 ≡ ok v
      → bands_to_hex v.bands ≡ bands_to_hex bands
  unfolding verified_set_bands
  verified_set_bands-hex bands l {v} h =
      grind (arith, codes_eq→eq, retry-hex (bands_to_hex bands) (after_read_back bands l) {v = v})

  pub roll_back-told_to_register :
      (bands : List ℕ) (priority : Option ℕ) (l : Line S) (b : Bool)
      → told_to_register b (roll_back answer bands priority l).1.sent
        ≡ left_told (told_to_register b l.sent) (verified_set_bands answer bands l).0
  unfolding roll_back
  roll_back-told_to_register bands priority l b =
      ground (arith, verified_set_bands-told_to_register bands l b)

  add_bands-told_to_register :
      (bands : List ℕ) (l : Line S) (b : Bool)
      → let r = add_bands answer bands l in
        told_to_register b r.1.sent ≡ left_told (told_to_register b l.sent) r.0
  unfolding add_bands
  add_bands-told_to_register bands l b = ground arith

  -- The line when the bands and the priority have been read.
  abbrev after_reads : Line S → Line S
  after_reads l =
      (command answer read_priority_failed read_priority
        (command answer read_bands_failed read_bands l).1).1

  -- If a quick change that succeeds reports that it had to deregister the modem, AT+COPS=0 is the
  -- last that was sent of AT+COPS=0 and AT+COPS=2; otherwise the last of them is as before.
  pub apply_bands_fast-told_to_register :
      (bands : List ℕ) (priority : Option ℕ) (l : Line S) (b : Bool) {a : Applied}
      → (apply_bands_fast answer bands priority l).0 ≡ ok a
      → told_to_register b (apply_bands_fast answer bands priority l).1.sent
        ≡ (a.did_deregister || told_to_register b l.sent)
  unfolding apply_bands_fast
  apply_bands_fast-told_to_register bands none l b {a} h = ground (
    arith,
    verified_set_bands-told_to_register bands (after_reads l) b,
    add_bands-told_to_register bands (after_reads l) b,
  )
  apply_bands_fast-told_to_register bands (some p) l b {a} h = ground (
    arith,
    verified_set_bands-told_to_register bands (after_reads l) b,
    add_bands-told_to_register bands (after_reads l) b,
  )

  -- Whatever the modem answers, the result of `verified_set_bands` tells which of AT+COPS=0 and
  -- AT+COPS=2 was sent last: what was sent before after a first command that fails or a first write
  -- that is taken, AT+COPS=2 after a retry that is taken or that fails, and AT+COPS=0 after the
  -- modem's refusal of the retry. If it succeeds, the bands that it returns are those that it was
  -- given, of the bands from 1 to 128.
  pub verified_set_bands-Set :
      (bands : List ℕ) (l : Line S) (b : Bool)
      → let (result, line) = verified_set_bands answer bands l in
        (told_to_register b line.sent ≡ left_told (told_to_register b l.sent) result)
        × ReadBack bands result
  verified_set_bands-Set bands l b = (
    verified_set_bands-told_to_register bands l b,
    read_back (verified_set_bands answer bands l).0 (λ v h. verified_set_bands-hex bands l h),
  )
    where
      read_back :
          (r : Result VerifiedSetResult)
          → ((v : VerifiedSetResult) → r ≡ ok v → bands_to_hex v.bands ≡ bands_to_hex bands)
          → ReadBack bands r
      read_back (ok v) h = λ c. bands_to_hex-same v.bands bands (h v refl) c
      read_back (err e) h = tt

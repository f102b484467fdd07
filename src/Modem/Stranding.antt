-- ===== src/Modem/Stranding.antt =====
-- server/src/lte.rs: the dialogues that end with an AT+COPS=2 and no AT+COPS=0 after it.
use sctl.Prelude.{ℕ, zero, suc, ◌≡◌, refl, Bool, true, false, List, Option, none, some, arith, ◌≢◌}
use sctl.Modem.Dialogue.{
  Command, read_bands, read_priority, read_registration, register, Line, write_failed,
  read_bands_failed, read_priority_failed, timed_out, ok, err, command,
}
use sctl.Modem.Change.{
  verified_set_bands, send, roll_back, set_priority, poll_registration, do_safe_set_bands,
  request_change, Requested,
}
use sctl.Modem.Registration.{told_to_register, left_told, roll_back-told_to_register}

module _ {S : Type 0} (answer : S → Command → S × Option (List ℕ)) where
  -- The polls have a result, and send neither AT+COPS=0 nor AT+COPS=2.
  poll-told_to_register :
      (polls : ℕ) (l : Line S) (b : Bool)
      → let r = poll_registration answer polls l in
        (r.0 ≢ err timed_out) × (told_to_register b r.1.sent ≡ told_to_register b l.sent)
  unfolding poll_registration
  poll-told_to_register zero l b = (cc, refl)
  poll-told_to_register (suc polls) l b =
      ground
        (arith, poll-told_to_register polls (command answer write_failed read_registration l).1 b)

  -- The line when the bands and the priority have been set.
  abbrev set_at : List ℕ → Option ℕ → Line S → Line S
  set_at bands priority l =
      let changed =
        (verified_set_bands answer bands
          (command answer read_priority_failed read_priority
            (command answer read_bands_failed read_bands l).1).1).1 in
      (set_priority answer priority (send answer register changed).1).1

  request_change-told_to_register :
      (bands : List ℕ) (priority : Option ℕ) (polls : ℕ) (l m : Line S) (b : Bool) (r : Requested)
      → request_change answer bands priority polls l ≡ (ok r, m)
      → told_to_register b m.sent ≡ true
  unfolding request_change
  request_change-told_to_register bands none polls l m b r h =
      ground (arith, poll-told_to_register polls (set_at bands none l) b)
  request_change-told_to_register bands (some p) polls l m b r h =
      ground (arith, poll-told_to_register polls (set_at bands (some p) l) b)

  -- Where no poll finds the modem registered on the new bands, `do_safe_set_bands` fails. Of
  -- AT+COPS=0 and AT+COPS=2, the last that it has sent is AT+COPS=2 if `verified_set_bands` had to
  -- retry the old bands and the retry was taken, or a command of the retry failed; it is AT+COPS=0
  -- if there was no retry, or the modem refused it.
  pub do_safe_set_bands-stranded :
      (bands : List ℕ) (priority : Option ℕ) (polls : ℕ) (l m : Line S) (b : Bool) (r : Requested)
      → request_change answer bands priority polls l ≡ (ok r, m)
      → r.is_registered ≡ false
      → let (result, line) = do_safe_set_bands answer bands priority polls l in
        (result ≡ err timed_out)
        × (told_to_register b line.sent
            ≡ left_told true (verified_set_bands answer r.old_bands m).0)
  unfolding do_safe_set_bands roll_back
  do_safe_set_bands-stranded bands priority polls l m b r h late =
      rw (h, late)
        (
          ground arith,
          ground (
            arith,
            roll_back-told_to_register answer r.old_bands r.old_priority m b,
            request_change-told_to_register bands priority polls l m b r,
          ),
        )

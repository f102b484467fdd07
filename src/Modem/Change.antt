-- ===== src/Modem/Change.antt =====
-- server/src/lte.rs: the dialogues that change the modem's bands. How often a loop polls before its
-- time is up is an argument. What the watchdog's suppression reads of the state that it shares with
-- these dialogues (`band_action_until`, `registration_pending`) is left out.
use sctl.Prelude.{
  codes_eq, ℕ, zero, suc, Bool, true, false, not, ◌&&◌, List, [], Option, none, some, if◌then◌else◌,
  contains, all,
}
use sctl.Watchdog.Cereg
use sctl.Watchdog.Cereg.{RegistrationStatus, parse_cereg}
use sctl.Watchdog.Lte.{BandConfig}
use sctl.Modem.Bands.{bands_to_hex, parse_band_config, parse_bandpri}
use sctl.Modem.Dialogue.{
  Command, read_bands, write_bands, read_priority, write_priority, read_registration, deregister,
  register, restart_interface, write_failed, read_back_failed, retry_write_failed,
  retry_read_back_failed, rejected, read_bands_failed, read_priority_failed, timed_out, M, pure,
  fail, ◌>>=◌, ◌>>◌, attempt, command,
}

pub record VerifiedSetResult : Type 0 where
  pub bands : List ℕ
  pub did_deregister : Bool

pub record Applied : Type 0 where
  pub config : BandConfig
  pub old_bands : List ℕ
  pub old_priority : Option ℕ
  pub did_deregister : Bool

-- What `do_safe_set_bands` knows when its polls end.
pub record Requested : Type 0 where
  pub old_bands : List ℕ
  pub old_priority : Option ℕ
  pub is_registered : Bool

-- `old.is_subset(new)`
abbrev pub subset : List ℕ → List ℕ → Bool
subset old new = all (λ b. contains b new) old

abbrev pub is_additive : List ℕ → List ℕ → Bool
is_additive old new = subset old new && not (subset new old)

abbrev pub status_registered : Option RegistrationStatus → Bool
status_registered none = false
status_registered (some s) = Cereg.is_registered s

-- Whether a poll's answer says that the modem is registered.
abbrev pub says_registered : Option (List ℕ) → Bool
says_registered none = false
says_registered (some response) = status_registered (parse_cereg response)

-- `unwrap_or_default()`
abbrev pub or_default : Option (List ℕ) → List ℕ
or_default none = []
or_default (some response) = response

abbrev pub bands_or : List ℕ → Option (List ℕ) → List ℕ
bands_or bands none = bands
bands_or bands (some response) = parse_band_config response

module _ {S : Type 0} (answer : S → Command → S × Option (List ℕ)) where
  abbrev pub send : Command → M S (Option (List ℕ))
  send c = attempt (command answer write_failed c)

  -- The second half of `verified_set_bands`, when the modem has ignored the write.
  unfoldable pub retry_set_bands : List ℕ → M S VerifiedSetResult
  retry_set_bands hex = do
    send deregister
    command answer retry_write_failed (write_bands hex)
    response ← command answer retry_read_back_failed read_bands
    if codes_eq (bands_to_hex (parse_band_config response)) hex
        then pure (record { bands = parse_band_config response; did_deregister = true })
        else (do send register; fail rejected)

  unfoldable pub verified_set_bands : List ℕ → M S VerifiedSetResult
  verified_set_bands bands = do
    command answer write_failed (write_bands (bands_to_hex bands))
    response ← command answer read_back_failed read_bands
    if codes_eq (bands_to_hex (parse_band_config response)) (bands_to_hex bands)
        then pure (record { bands = parse_band_config response; did_deregister = false })
        else retry_set_bands (bands_to_hex bands)

  -- A write that only adds bands is not retried.
  unfoldable pub add_bands : List ℕ → M S VerifiedSetResult
  add_bands bands = do
    command answer write_failed (write_bands (bands_to_hex bands))
    response ← command answer read_back_failed read_bands
    pure (record { bands = parse_band_config response; did_deregister = false })

  abbrev pub set_priority : Option ℕ → M S (Option (List ℕ))
  set_priority none = send (write_priority 0)
  set_priority (some band) = send (write_priority band)

  abbrev pub restore_priority : Option ℕ → M S (Option (List ℕ))
  restore_priority none = pure none
  restore_priority (some band) = send (write_priority band)

  abbrev pub register_if : Bool → M S (Option (List ℕ))
  register_if false = pure none
  register_if true = send register

  unfoldable pub apply_bands_fast : List ℕ → Option ℕ → M S Applied
  apply_bands_fast bands priority = do
    bands_response ← command answer read_bands_failed read_bands
    priority_response ← command answer read_priority_failed read_priority
    result ←
        if is_additive (parse_band_config bands_response) bands
        then add_bands bands
        else verified_set_bands bands
    register_if result.did_deregister
    set_priority priority
    pure (record {
      config = record { enabled_bands = result.bands; priority_band = priority };
      old_bands = parse_band_config bands_response;
      old_priority = parse_bandpri priority_response;
      did_deregister = result.did_deregister;
    })

  -- The loop that polls for the registration: whether one of the polls found it.
  unfoldable pub poll_registration : ℕ → M S Bool
  poll_registration zero = pure false
  poll_registration (suc polls) = do
    response ← send read_registration
    let rest = poll_registration polls
    if says_registered response then pure true else rest

  -- The end of `do_safe_set_bands` when the time is up.
  unfoldable pub roll_back : List ℕ → Option ℕ → M S BandConfig
  roll_back old_bands old_priority = do
    attempt (verified_set_bands old_bands)
    restore_priority old_priority
    fail timed_out

  unfoldable pub read_config : List ℕ → Option ℕ → M S BandConfig
  read_config bands priority = do
    response ← send read_bands
    pure (record { enabled_bands = bands_or bands response; priority_band = priority })

  -- `do_safe_set_bands` up to the end of the polls.
  unfoldable pub request_change : List ℕ → Option ℕ → ℕ → M S Requested
  request_change bands priority polls = do
    bands_response ← command answer read_bands_failed read_bands
    priority_response ← command answer read_priority_failed read_priority
    verified_set_bands bands
    send register
    set_priority priority
    registered ← poll_registration polls
    pure (record {
      old_bands = parse_band_config bands_response;
      old_priority = parse_bandpri priority_response;
      is_registered = registered;
    })

  unfoldable pub do_safe_set_bands : List ℕ → Option ℕ → ℕ → M S BandConfig
  do_safe_set_bands bands priority polls = do
    r ← request_change bands priority polls
    if r.is_registered then read_config bands priority else roll_back r.old_bands r.old_priority

  unfoldable pub recover_data_path_pub : List ℕ → M S (Option VerifiedSetResult)
  recover_data_path_pub expected = do
    send restart_interface
    response ← send read_bands
    if codes_eq (bands_to_hex (parse_band_config (or_default response))) (bands_to_hex expected)
        then pure none
        else attempt (verified_set_bands expected)

  -- The end of `monitor_registration` when the time is up: nothing is undone if the bands have
  -- been changed since.
  unfoldable pub undo_change : List ℕ → List ℕ → Option ℕ → M S (Option VerifiedSetResult)
  undo_change expected old_bands old_priority = do
    response ← send read_bands
    if codes_eq (bands_to_hex (parse_band_config (or_default response))) (bands_to_hex expected)
        then (do
          attempt (verified_set_bands old_bands)
          restore_priority old_priority
          send register
          recover_data_path_pub old_bands)
        else pure none

  unfoldable pub monitor_registration :
      List ℕ → List ℕ → Option ℕ → ℕ → M S (Option VerifiedSetResult)
  monitor_registration expected old_bands old_priority polls = do
    registered ← poll_registration polls
    if registered
        then recover_data_path_pub expected
        else undo_change expected old_bands old_priority

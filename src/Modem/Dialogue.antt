-- ===== src/Modem/Dialogue.antt =====
-- server/src/lte.rs: the serial line to the modem, as the dialogues use it. The modem is a
-- parameter: a state, and what it answers to a command; `none` stands for a failed command. The
-- pauses between commands are left out.
use sctl.Prelude.{ℕ, List, ◌∷◌, Option, none, some}

pub data Command : Type 0 where
  -- `AT+QCFG="band"`, and `AT+QCFG="band",260,…,0` with the digits of the mask
  read_bands : Command
  write_bands : List ℕ → Command
  -- `AT+QCFG="bandpri"` without and with a band
  read_priority : Command
  write_priority : ℕ → Command
  -- `AT+CEREG?`, `AT+COPS=2` and `AT+COPS=0`
  read_registration deregister register : Command
  -- Not on the line: the restart of the modem's network interface, which may reset its bands.
  restart_interface : Command

-- The commands that were sent, the latest first.
pub record Line (S : Type 0) : Type 0 where
  pub modem : S
  pub sent : List Command

-- What a dialogue fails with: the command that failed, or the modem's refusal.
pub data BandError : Type 0 where
  write_failed read_back_failed retry_write_failed retry_read_back_failed rejected : BandError
  read_bands_failed read_priority_failed timed_out : BandError

pub data Result (A : Type 0) : Type 0 where
  ok : A → Result A
  err : BandError → Result A

abbrev pub M : Type 0 → Type 0 → Type 0
M S A = Line S → Result A × Line S

abbrev pub pure : {S A : Type 0} → A → M S A
pure a l = (ok a, l)

abbrev pub fail : {S A : Type 0} → BandError → M S A
fail e l = (err e, l)

abbrev pub then_result : {S A B : Type 0} → Result A × Line S → (A → M S B) → Result B × Line S
then_result (ok a, l) f = f a l
then_result (err e, l) f = (err e, l)

infixl 5 ◌>>=◌ ◌>>◌
abbrev pub ◌>>=◌ : {S A B : Type 0} → M S A → (A → M S B) → M S B
◌>>=◌ m f l = then_result (m l) f

abbrev pub ◌>>◌ : {S A B : Type 0} → M S A → M S B → M S B
m >> k = m >>= λ _. k

-- `if let Err(e) = …`, `match … { Ok(_) => …, Err(e) => … }`: the dialogue goes on.
abbrev pub outcome : {S A : Type 0} → Result A × Line S → Result (Option A) × Line S
outcome (ok a, l) = (ok (some a), l)
outcome (err e, l) = (ok none, l)

abbrev pub attempt : {S A : Type 0} → M S A → M S (Option A)
attempt m l = outcome (m l)

abbrev pub or_fail : {A : Type 0} → BandError → Option A → Result A
or_fail e none = err e
or_fail e (some a) = ok a

module _ {S : Type 0} (answer : S → Command → S × Option (List ℕ)) where
  -- `modem.command(c)`, with the error that the caller makes of a failure.
  abbrev pub command : BandError → Command → M S (List ℕ)
  command e c l =
      let r = answer l.modem c in (or_fail e r.1, record { modem = r.0; sent = c ∷ l.sent })

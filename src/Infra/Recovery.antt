-- ===== src/Infra/Recovery.antt =====
-- server/src/infra/monitor.rs: the limits of the recovery commands.
use sctl.Prelude.{
  add_u32, ℕ, ◌-◌, ◌≤◌, ◌<◌, ◌≡◌, refl, inl, inr, Bool, true, false, List, Option, none, some,
  String, arith, if◌then◌else◌, length, get_elem?, string_eq, Bool-cases,
}
use sctl.Prelude.Map.{lookup-insert, lookup-remove}
use sctl.Prelude.Ring.{length-push_bounded}
use sctl.Infra.Types.{
  RecoveryConfig, InfraTarget, InfraConfig, CheckResult, InfraState, push_recovery_log,
  max_recovery_log,
}
use sctl.Infra.Monitor.{
  Ran, exit_and_stdout, is_continuation, truncate_stdout, cut_at, after_run, reset_if, tracked,
  may_recover, try_recovery, recover_if, record_check,
}

-- Whether the output has a byte 512, and that byte is inside a character.
abbrev pub CutsCharacter : List ℕ → Type 0
CutsCharacter out = (b : ℕ) × (get_elem? out 512 ≡ some b) × (is_continuation b ≡ true)

cut_at-none :
    (o : Option ℕ) (out : List ℕ)
    → ((cut_at o out ≡ none) → (b : ℕ) × (o ≡ some b) × (is_continuation b ≡ true))
      × (((b : ℕ) × (o ≡ some b) × (is_continuation b ≡ true)) → cut_at o out ≡ none)
cut_at-none none out = (λ h. cc, λ c. cc)
cut_at-none (some b) out = (λ h. (b, refl, ground (arith, h)), λ c. ground (arith, c))

after_run-none :
    (s : InfraState) (id : String) (c : RecoveryConfig) (now : ℕ) (stamp : String) (code : ℕ)
    (o : Option (List ℕ))
    → ((after_run s id c now stamp code o ≡ none) → (o ≡ none))
      × ((o ≡ none) → after_run s id c now stamp code o ≡ none)
unfolding after_run
after_run-none s id c now stamp code none = (λ h. refl, λ h. refl)
after_run-none s id c now stamp code (some out) = (λ h. cc, λ h. cc)

-- The recovery step panics exactly if the command is run and its output would be cut inside a
-- character.
pub try_recovery-panics :
    (s : InfraState) (id : String) (c : RecoveryConfig) (now : ℕ) (stamp : String) (ran : Ran)
    → ((try_recovery s id c now stamp ran ≡ none)
        → (may_recover s id c now ≡ true) × CutsCharacter (exit_and_stdout ran).1)
      × (((may_recover s id c now ≡ true) × CutsCharacter (exit_and_stdout ran).1)
          → try_recovery s id c now stamp ran ≡ none)
unfolding try_recovery truncate_stdout
try_recovery-panics s id c now stamp ran =
    let out = (exit_and_stdout ran).1 in
    let p = cut_at-none (get_elem? out 512) out in
    let q =
      after_run-none s id c now stamp (exit_and_stdout ran).0 (cut_at (get_elem? out 512) out) in
    elim (Bool-cases (may_recover s id c now)) [
      | inl t ↦ rw t (λ h. (refl, p.0 (q.0 h)), λ h. q.1 (p.1 h.1))
      | inr f ↦ rw f (λ h. cc, λ h. cc)
    ]

-- The retries of each target are within its limit, and the log within its size.
pub record Limited (limit : String → ℕ) (s : InfraState) : Type 0 where
  pub retries : (id : String) → (tracked s id).1 ≤ limit id
  pub logged : length s.recovery_log ≤ max_recovery_log

-- If a step returns a state, the state is within the limits.
abbrev pub Kept : (String → ℕ) → Option InfraState → Type 0
Kept limit none = Unit {0}
Kept limit (some s) = Limited limit s

may_recover-true :
    (s : InfraState) (id : String) (c : RecoveryConfig) (now : ℕ)
    → may_recover s id c now ≡ true
    → ((tracked s id).1 < c.max_retries) × (c.cooldown_secs ≤ now - (tracked s id).0)
unfolding may_recover
may_recover-true s id c now h = ground (arith, h)

module _ (limit : String → ℕ) where
  after_run-Limited :
      (s : InfraState) (id : String) (c : RecoveryConfig) (now : ℕ) (stamp : String) (code : ℕ)
      (o : Option (List ℕ))
      → (tracked s id).1 < limit id
      → Limited limit s
      → Kept limit (after_run s id c now stamp code o)
  unfolding after_run push_recovery_log
  after_run-Limited s id c now stamp code none h v = tt
  after_run-Limited s id c now stamp code (some out) h v = record {
    retries = λ j. ground (
      arith,
      v.retries j,
      string_eq.beq_iff id j,
      lookup-insert id j (now, add_u32 (tracked s id).1 1) s.recovery_tracker,
    );
    logged = length-push_bounded max_recovery_log s.recovery_log _ v.logged;
  }

  try_recovery-Limited :
      (s : InfraState) (id : String) (c : RecoveryConfig) (now : ℕ) (stamp : String) (ran : Ran)
      → c.max_retries ≤ limit id
      → Limited limit s
      → Kept limit (try_recovery s id c now stamp ran)
  unfolding try_recovery
  try_recovery-Limited s id c now stamp ran h v = elim (Bool-cases (may_recover s id c now)) [
    | inl t ↦
        rw t (
          after_run-Limited s id c now stamp _ _ (omega (arith, may_recover-true s id c now t, h))
            v)
    | inr f ↦ rw f v
  ]

  if-Kept :
      (b : Bool) (x y : Option InfraState)
      → Kept limit x
      → Kept limit y
      → Kept limit (if b then x else y)
  if-Kept true x y h k = h
  if-Kept false x y h k = k

  -- What the configured retries of a target come to.
  abbrev pub Allowed : Option RecoveryConfig → String → Type 0
  Allowed none id = Unit {0}
  Allowed (some c) id = c.max_retries ≤ limit id

  recover_if-Limited :
      (b : Bool) (s : InfraState) (id : String) (r : Option RecoveryConfig) (now : ℕ)
      (stamp : String) (ran : Ran)
      → Allowed r id
      → Limited limit s
      → Kept limit (recover_if b s id r now stamp ran)
  unfolding recover_if
  recover_if-Limited false s id r now stamp ran h v = v
  recover_if-Limited true s id none now stamp ran h v = v
  recover_if-Limited true s id (some c) now stamp ran h v =
      if-Kept c.enabled (try_recovery s id c now stamp ran) (some s)
        (try_recovery-Limited s id c now stamp ran h v) v

  reset_if-Limited :
      (b : Bool) (id : String) (o : Option InfraState) → Kept limit o → Kept limit (reset_if b id o)
  unfolding reset_if
  reset_if-Limited b id none v = tt
  reset_if-Limited false id (some s) v = v
  reset_if-Limited true id (some s) v = record {
    retries = λ j. ground (arith, v.retries j, lookup-remove id j s.recovery_tracker);
    logged = v.logged;
  }

  pub record_check-Kept :
      (s : InfraState) (cfg : InfraConfig) (t : InfraTarget) (r : CheckResult) (now : ℕ)
      (stamp : String) (ran : Ran)
      → Allowed t.recovery t.id
      → Limited limit s
      → Kept limit (record_check s cfg t r now stamp ran)
  unfolding record_check
  record_check-Kept s cfg t r now stamp ran h v = reset_if-Limited _ t.id _ (
      recover_if-Limited _ _ t.id t.recovery now stamp ran h
        (record { retries = v.retries; logged = v.logged }))

-- ===== src/Infra/Retrying.antt =====
-- server/src/infra/monitor.rs: when a recovery command runs, and what is recorded of it.
use sctl.Prelude.{
  ◌-◌, suc, subst, ℕ, ◌<◌, ◌^◌, ◌≡◌, refl, sym, ap, ◌∙◌, Bool, true, false, ◌&&◌, List, Option,
  none, some, String, arith, leb, ltb, if◌then◌else◌, string_eq, Bool-cases, inl, inr, add_u32,
}
use sctl.Prelude.Map.{lookup, insert, remove, lookup-insert_self, lookup-remove}
use sctl.Prelude.Ring.{push_bounded}
use sctl.Infra.Types.{
  TargetStatus, RecoveryConfig, InfraTarget, InfraConfig, CheckResult, InfraState, RecoveryLogEntry,
  push_recovery_log, max_recovery_log, unknown, up, degraded, down,
}
use sctl.Infra.Monitor.{
  Ran, after_run, reset_if, tracked, may_recover, try_recovery, recover_if, record_check, observe,
  is_down, is_up, status_of,
}
use sctl.Infra.Recovery.{Limited, Kept, Allowed, record_check-Kept}

-- Whether the command of a target runs: the target is down, its recovery is enabled, `count`
-- executions are fewer than its retries, and its cooldown has passed since the last of them.
abbrev pub runs : TargetStatus → Option RecoveryConfig → ℕ × ℕ → ℕ → Bool
runs down (some c) (last, count) now =
    c.enabled && ltb count c.max_retries && leb c.cooldown_secs (now - last)
runs down none (last, count) now = false
runs up r (last, count) now = false
runs degraded r (last, count) now = false
runs unknown r (last, count) now = false

-- Whether a target with the status is up again, after the other one.
abbrev pub is_back : TargetStatus → TargetStatus → Bool
is_back up prev = is_down prev
is_back unknown prev = false
is_back degraded prev = false
is_back down prev = false

-- An execution is logged, counted and dated. Without one the log stays, and so do the count and the
-- date, but those of a target that is up again are forgotten.
abbrev pub Recorded : String → ℕ → InfraState → Bool → Bool → InfraState → Type 0
Recorded id now s true back after =
    (tracked after id ≡ (now, suc (tracked s id).1))
    × ((e : RecoveryLogEntry) × (e.target_id ≡ id)
        × (after.recovery_log ≡ push_bounded max_recovery_log s.recovery_log e))
Recorded id now s false back after =
    (tracked after id ≡ (if back then (0, 0) else tracked s id))
    × (after.recovery_log ≡ s.recovery_log)

-- What holds of a state that is reached without a panic.
abbrev pub Reached : (InfraState → Type 0) → Option InfraState → Type 0
Reached P none = Unit {0}
Reached P (some s) = P s

both :
    (P Q : InfraState → Type 0) (o : Option InfraState)
    → Reached P o
    → Reached Q o
    → Reached (λ s. P s × Q s) o
both P Q none p q = tt
both P Q (some s) p q = (p, q)

-- The configured retries are an unsigned 32-bit number.
abbrev pub Retries : Option RecoveryConfig → Type 0
Retries none = Unit {0}
Retries (some c) = c.max_retries < 2 ^ 32

module _ (id : String) (now : ℕ) (stamp : String) (ran : Ran) where
  after_run-Recorded :
      (s : InfraState) (c : RecoveryConfig) (code : ℕ) (o : Option (List ℕ)) (back : Bool)
      → suc (tracked s id).1 < 2 ^ 32
      → Reached (Recorded id now s true back) (after_run s id c now stamp code o)
  unfolding after_run push_recovery_log
  after_run-Recorded s c code none back h = tt
  after_run-Recorded s c code (some out) back h =
      let n : add_u32 (tracked s id).1 1 ≡ suc (tracked s id).1 = ground (arith, h) in
      (
        ap entry (lookup-insert_self id (now, add_u32 (tracked s id).1 1) s.recovery_tracker)
            ∙ ap (λ k. (now, k)) n,
        (
          record {
            ts = stamp;
            target_id = id;
            command = c.command;
            exit_code = code;
            stdout = out;
          },
          refl,
          refl,
        ),
      )
    where
      entry : Option (ℕ × ℕ) → ℕ × ℕ
      entry o = elim o [ none ↦ (0, 0) | some e ↦ e ]

  try_recovery-Recorded :
      (s : InfraState) (c : RecoveryConfig)
      → c.enabled ≡ true
      → c.max_retries < 2 ^ 32
      → Reached
          (Recorded id now s (runs down (some c) (tracked s id) now) false)
          (try_recovery s id c now stamp ran)
  unfolding try_recovery may_recover
  try_recovery-Recorded s c e h = elim (Bool-cases (leb c.max_retries (tracked s id).1)) [
    | inl spent ↦
        let no : runs down (some c) (tracked s id) now ≡ false = ground (arith, e, spent) in
        rw (spent, no) (refl, refl)
    | inr left ↦ elim (Bool-cases (ltb (now - (tracked s id).0) c.cooldown_secs)) [
      | inl cools ↦
          let no : runs down (some c) (tracked s id) now ≡ false = ground (arith, e, cools) in
          rw (left, cools, no) (refl, refl)
      | inr cool ↦
          let yes : runs down (some c) (tracked s id) now ≡ true = ground (arith, e, left, cool) in
          rw (left, cool, yes)
            (after_run-Recorded s c _ _ false (omega (arith, ground-lt s c left, h)))
    ]
  ]
    where
      ground-lt :
          (s : InfraState) (c : RecoveryConfig)
          → leb c.max_retries (tracked s id).1 ≡ false
          → (tracked s id).1 < c.max_retries
      ground-lt s c h = ground (arith, h)

  step-Recorded :
      (s : InfraState) (prev next : TargetStatus) (r : Option RecoveryConfig)
      → Retries r
      → Reached (Recorded id now s (runs next r (tracked s id) now) (is_back next prev)) (
          reset_if (is_up next && is_down prev) id (recover_if (is_down next) s id r now stamp ran))
  unfolding reset_if recover_if
  step-Recorded s prev unknown r h = (refl, refl)
  step-Recorded s prev degraded r h = (refl, refl)
  step-Recorded s down up r h = (forgotten, refl)
    where
      forgotten : tracked (record s { recovery_tracker = remove id s.recovery_tracker }) id ≡ (0, 0)
      forgotten = ground (arith, string_eq.beq_iff id id, lookup-remove id id s.recovery_tracker)
  step-Recorded s unknown up r h = (refl, refl)
  step-Recorded s degraded up r h = (refl, refl)
  step-Recorded s up up r h = (refl, refl)
  step-Recorded s prev down none h = (refl, refl)
  step-Recorded s prev down (some c) h = elim (Bool-cases c.enabled) [
    | inl on ↦
        let result : InfraState → Type 0 =
          Recorded id now s (runs down (some c) (tracked s id) now) false in
        let o = if c.enabled then try_recovery s id c now stamp ran else some s in
        kept result o (
          subst
            (λ (b : Bool). Reached result (if b then try_recovery s id c now stamp ran else some s))
            (sym on) (try_recovery-Recorded s c on h))
    | inr off ↦ rw off (refl, refl)
  ]
    where
      kept :
          (P : InfraState → Type 0) (o : Option InfraState)
          → Reached P o
          → Reached P (reset_if false id o)
      kept P none v = tt
      kept P (some s') v = v

module _ (limit : String → ℕ) where
  -- A check of a target runs its recovery command exactly if the target is down, the recovery is
  -- enabled, its retries are not used up and its cooldown is over; unless that panics, the execution
  -- is then logged, counted and dated, and so in any case the counted executions of every target
  -- stay within its limit, and the log within its size. Without an execution the log, the count and
  -- the date stay, but for a target that is up again, which starts with none.
  pub record_check-Limited :
      (s : InfraState) (cfg : InfraConfig) (t : InfraTarget) (r : CheckResult) (now : ℕ)
      (stamp : String) (ran : Ran)
      → Allowed limit t.recovery t.id
      → Retries t.recovery
      → Limited limit s
      → let prev = lookup t.id s.targets in
        let next = observe t prev r stamp in
        Reached
          (λ after.
            Limited limit after
            × Recorded t.id now s
                (runs next.status t.recovery (tracked s t.id) now)
                (is_back next.status (status_of prev))
                after)
          (record_check s cfg t r now stamp ran)
  unfolding record_check
  record_check-Limited s cfg t r now stamp ran h u v =
      let next = observe t (lookup t.id s.targets) r stamp in
      both (Limited limit) _ (record_check s cfg t r now stamp ran)
        (limits (record_check s cfg t r now stamp ran)
          (record_check-Kept limit s cfg t r now stamp ran h v))
        (step-Recorded t.id now stamp ran
          (record s {
            targets = insert t.id next s.targets;
            ts = stamp;
            config_version = cfg.version;
          })
          (status_of (lookup t.id s.targets)) next.status t.recovery u)
    where
      limits : (o : Option InfraState) → Kept limit o → Reached (Limited limit) o
      limits none k = tt
      limits (some s') k = k

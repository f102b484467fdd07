-- ===== src/Infra/Status.antt =====
-- server/src/infra/monitor.rs: how the status of a target follows from its checks.
use sctl.Prelude.{
  add_u32, ℕ, suc, ◌-◌, ◌^◌, min, ◌≤◌, ◌<◌, ◌≡◌, ◌≢◌, ◌⊎◌, inl, inr, refl, true, false, List, [],
  ◌∷◌, Option, none, some, String, arith, if◌then◌else◌, length,
}
use sctl.Infra.Types.{
  TargetStatus, unknown, up, degraded, down, InfraTarget, CheckResult, TargetState,
}
use sctl.Infra.Monitor.{compute_status, observe, is_slow, status_of, ok_count, fail_count}

abbrev pub Check : Type 0
Check = CheckResult × String

-- The state of a target after its checks, newest first, each with the time it was made.
abbrev pub watch : InfraTarget → List Check → Option TargetState
watch t [] = none
watch t (c ∷ cs) = some (observe t (watch t cs) c.0 c.1)

-- How many of the newest checks in a row went well, and how many failed.
abbrev pub successes : List Check → ℕ
successes [] = 0
successes (c ∷ cs) = if c.0.is_ok then suc (successes cs) else 0

abbrev pub failures : List Check → ℕ
failures [] = 0
failures (c ∷ cs) = if c.0.is_ok then 0 else suc (failures cs)

-- The counters of the state, as long as `u32` goes.
watch_counts :
    (t : InfraTarget) (cs : List Check)
    → (ok_count (watch t cs) ≡ min (successes cs) (2 ^ 32 - 1))
      × (fail_count (watch t cs) ≡ min (failures cs) (2 ^ 32 - 1))
unfolding observe
watch_counts t [] = ground arith
watch_counts t (c ∷ cs) = ground (arith, watch_counts t cs)

successes_le : (cs : List Check) → successes cs ≤ length cs
successes_le [] = omega arith
successes_le (c ∷ cs) = ground (arith, successes_le cs)

failures_le : (cs : List Check) → failures cs ≤ length cs
failures_le [] = omega arith
failures_le (c ∷ cs) = ground (arith, failures_le cs)

enters_down :
    (prev : TargetStatus) (r : CheckResult) (threshold down_after up_after : ℕ)
    (s : Option TargetState)
    → compute_status prev r threshold down_after up_after s ≡ down
    → prev ≢ down
    → (prev ≡ degraded) × (r.is_ok ≡ false) × (down_after ≤ add_u32 (fail_count s) 1)
unfolding compute_status
enters_down unknown r threshold down_after up_after s e ne = ground arith
enters_down up r threshold down_after up_after s e ne = ground arith
enters_down degraded r threshold down_after up_after s e ne = ground arith
enters_down down r threshold down_after up_after s e ne = absurd (ne refl)

-- A target goes down only from being degraded, on a failed check, when at least `down_after` checks
-- in a row have failed.
pub watch-enters_down :
    (t : InfraTarget) (c : Check) (cs : List Check)
    → status_of (watch t (c ∷ cs)) ≡ down
    → status_of (watch t cs) ≢ down
    → (status_of (watch t cs) ≡ degraded)
      × (0 < failures (c ∷ cs))
      × (t.down_after_consecutive ≤ failures (c ∷ cs))
unfolding observe
watch-enters_down t c cs e ne =
    let p =
      enters_down (status_of (watch t cs)) c.0 t.degraded_threshold_ms t.down_after_consecutive
        t.up_after_consecutive (watch t cs) e ne in
    ground (arith, p, watch_counts t cs)

leaves_down :
    (r : CheckResult) (threshold down_after up_after : ℕ) (s : Option TargetState)
    → compute_status down r threshold down_after up_after s ≢ down
    → (compute_status down r threshold down_after up_after s ≡ up)
      × (r.is_ok ≡ true)
      × (up_after ≤ add_u32 (ok_count s) 1)
unfolding compute_status
leaves_down r threshold down_after up_after s ne = ground arith

-- A target that is down only ever becomes up, on a check that went well, when at least `up_after`
-- checks in a row have.
pub watch-leaves_down :
    (t : InfraTarget) (c : Check) (cs : List Check)
    → status_of (watch t cs) ≡ down
    → status_of (watch t (c ∷ cs)) ≢ down
    → (status_of (watch t (c ∷ cs)) ≡ up)
      × (0 < successes (c ∷ cs))
      × (t.up_after_consecutive ≤ successes (c ∷ cs))
unfolding observe
watch-leaves_down t c cs d ne =
    let p =
      leaves_down c.0 t.degraded_threshold_ms t.down_after_consecutive t.up_after_consecutive
        (watch t cs) (rw d at ne) in
    let n : (0 < successes (c ∷ cs)) × (t.up_after_consecutive ≤ successes (c ∷ cs)) =
      ground (arith, p.1, p.2, watch_counts t cs) in
    rw d (p.0, n.0, n.1)

fails :
    (prev : TargetStatus) (r : CheckResult) (threshold down_after up_after : ℕ)
    (s : Option TargetState)
    → r.is_ok ≡ false
    → (compute_status prev r threshold down_after up_after s ≡ degraded)
      ⊎ (compute_status prev r threshold down_after up_after s ≡ down)
unfolding compute_status
fails unknown r threshold down_after up_after s e = ground arith
fails up r threshold down_after up_after s e = ground arith
fails degraded r threshold down_after up_after s e = ground arith
fails down r threshold down_after up_after s e = ground arith

stays_down :
    (r : CheckResult) (threshold down_after up_after : ℕ) (s : Option TargetState)
    → r.is_ok ≡ false
    → compute_status down r threshold down_after up_after s ≡ down
unfolding compute_status
stays_down r threshold down_after up_after s e = ground arith

sinks :
    (r : CheckResult) (threshold down_after up_after : ℕ) (s : Option TargetState)
    → r.is_ok ≡ false
    → down_after ≤ add_u32 (fail_count s) 1
    → compute_status degraded r threshold down_after up_after s ≡ down
unfolding compute_status
sinks r threshold down_after up_after s e h = ground arith

failing :
    (t : InfraTarget) (cs : List Check)
    → 0 < failures cs
    → (status_of (watch t cs) ≡ degraded) ⊎ (status_of (watch t cs) ≡ down)
unfolding observe
failing t [] h = absurd (omega (arith, h))
failing t (c ∷ cs) h = fails (status_of (watch t cs)) c.0 _ _ _ (watch t cs) (ground (arith, h))

-- Fewer than 2^32 checks, the newest of which failed, at least two and at least `down_after` in a
-- row, leave the target down.
pub watch-reaches_down :
    (t : InfraTarget) (cs : List Check)
    → length cs < 2 ^ 32
    → 2 ≤ failures cs
    → t.down_after_consecutive ≤ failures cs
    → status_of (watch t cs) ≡ down
unfolding observe
watch-reaches_down t [] short two enough = absurd (omega (arith, two))
watch-reaches_down t (c ∷ cs) short two enough = elim (failing t cs (ground (arith, two))) [
  | inr d ↦ rw d (
      stays_down c.0 t.degraded_threshold_ms t.down_after_consecutive t.up_after_consecutive
        (watch t cs) (ground (arith, two)))
  | inl g ↦ rw g (
      sinks c.0 t.degraded_threshold_ms t.down_after_consecutive t.up_after_consecutive (watch t cs)
        (ground (arith, two)) (ground (arith, two, enough, watch_counts t cs, failures_le cs)))
]

rises :
    (prev : TargetStatus) (r : CheckResult) (threshold down_after up_after : ℕ)
    (s : Option TargetState)
    → r.is_ok ≡ true
    → is_slow r threshold ≡ false
    → up_after ≤ add_u32 (ok_count s) 1
    → compute_status prev r threshold down_after up_after s ≡ up
unfolding compute_status
rises unknown r threshold down_after up_after s e f h = ground arith
rises up r threshold down_after up_after s e f h = ground arith
rises degraded r threshold down_after up_after s e f h = ground arith
rises down r threshold down_after up_after s e f h = ground arith

-- Fewer than 2^32 checks, the newest of which went well and was not slow, with at least `up_after`
-- in a row that went well, leave the target up.
pub watch-reaches_up :
    (t : InfraTarget) (c : Check) (cs : List Check)
    → length (c ∷ cs) < 2 ^ 32
    → c.0.is_ok ≡ true
    → is_slow c.0 t.degraded_threshold_ms ≡ false
    → t.up_after_consecutive ≤ successes (c ∷ cs)
    → status_of (watch t (c ∷ cs)) ≡ up
unfolding observe
watch-reaches_up t c cs short good fast enough =
    rises (status_of (watch t cs)) c.0 _ _ _ (watch t cs) good fast
      (ground (arith, enough, watch_counts t cs, successes_le cs))

-- A target that is up and gets two slow checks in a row that both went well becomes degraded and
-- then up again, though it is as slow as before, once enough checks have gone well.
pub watch-flaps :
    (t : InfraTarget) (c d : Check) (cs : List Check)
    → length (d ∷ c ∷ cs) < 2 ^ 32
    → status_of (watch t cs) ≡ up
    → (c.0.is_ok ≡ true) × (is_slow c.0 t.degraded_threshold_ms ≡ true)
    → (d.0.is_ok ≡ true) × (is_slow d.0 t.degraded_threshold_ms ≡ true)
    → t.up_after_consecutive ≤ successes (d ∷ c ∷ cs)
    → (status_of (watch t (c ∷ cs)) ≡ degraded) × (status_of (watch t (d ∷ c ∷ cs)) ≡ up)
unfolding observe compute_status
watch-flaps t c d cs short u slow1 slow2 enough =
    let first : status_of (watch t (c ∷ cs)) ≡ degraded = rw u (ground (arith, slow1)) in
    (
      first,
      rw first (ground (arith, slow2, enough, watch_counts t (c ∷ cs), successes_le (c ∷ cs))),
    )

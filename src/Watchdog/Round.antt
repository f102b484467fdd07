-- ===== src/Watchdog/Round.antt =====
-- server/src/lte_watchdog.rs: what a round of the watchdog's loop takes and gives, and when it is
-- skipped. Beside the state, a round takes what the modem, the network and the clock answer in it,
-- and gives the effects in their order.
use sctl.Prelude.{
  ℕ, ◌-◌, Bool, true, false, not, List, Option, none, some, str_eq, ltb, if◌then◌else◌,
}
use sctl.Watchdog.Lte.{LteState}
use sctl.Watchdog.Gate.{Observed}
use sctl.Watchdog.Dispatch.{Effect, Watch, ActionAnswers}

abbrev pub safe_promote_threshold : ℕ
safe_promote_threshold = 300000

abbrev pub light_reset_threshold : ℕ
light_reset_threshold = 90000

abbrev pub searching_grace_extension : ℕ
searching_grace_extension = 180000

abbrev pub prechange_revert_window : ℕ
prechange_revert_window = 180000

abbrev pub user_activity_suppression : ℕ
user_activity_suppression = 120000

abbrev pub max_l3_attempts : ℕ
max_l3_attempts = 3

-- A revert of the bands: whether `apply_band_config` succeeds, the clock after it, and whether the
-- tunnel is back.
pub record RevertAnswers : Type 0 where
  pub applied : Bool
  pub now : ℕ
  pub recovered : Bool

-- `current_bands` is what the modem reports before the safe revert. `acted_at` is the clock when the
-- action is logged, `has_ipv4` the interface's state after it, and `recovered` whether
-- `verify_recovery` sees the tunnel again.
pub record TickAnswers : Type 0 where
  pub now : ℕ
  pub epoch : ℕ
  pub connected : Bool
  pub exhaustion_file : Bool
  pub cereg : Option (List ℕ)
  pub prechange : RevertAnswers
  pub current_bands : Option (List ℕ)
  pub safe : RevertAnswers
  pub observed : Observed
  pub action : ActionAnswers
  pub acted_at : ℕ
  pub has_ipv4 : Bool
  pub recovered : Bool

pub record Round : Type 0 where
  pub watch : Watch
  pub lte : LteState
  pub effects : List Effect

abbrev pub round : Watch → LteState → List Effect → Round
round w l es = record { watch = w; lte = l; effects = es }

abbrev pub half_hour : ℕ
half_hour = 1800

-- Whether the round is skipped for a scan or a manual band change; a scan that has run for more
-- than 30 minutes is ended.
unfoldable pub skip_tick : LteState → ℕ → ℕ → Bool × LteState
skip_tick l now epoch = elim l.scan_status [
  | none ↦ (elim l.band_action_until [ none ↦ false | some until ↦ ltb now until ], l)
  | some scan ↦
      if not (str_eq scan.state "running")
      then (false, l)
      else if ltb half_hour (epoch - scan.started_at)
      then (
        false,
        record l {
          scan_status = some (record scan { state = "timeout"; completed_at = some epoch });
        },
      )
      else (true, l)
]

abbrev pub user_suppressed : LteState → ℕ → Bool
user_suppressed l now = elim l.last_user_action_at [
  | none ↦ false
  | some t ↦ ltb (now - t) user_activity_suppression
]

abbrev pub is_some {ℓ} : {A : Type ℓ} → Option A → Bool
is_some none = false
is_some (some a) = true

abbrev pub or_now : Option ℕ → ℕ → ℕ
or_now none now = now
or_now (some t) now = t

-- ===== src/Supervisor/Tests.antt =====
-- server/src/supervisor.rs: crash loops on examples.
use sctl.Prelude.{◌≡◌, refl, [], ◌∷◌, true, false, arith}
use sctl.Supervisor.{record_crash_and_pick_backoff, crashes, drop_old}
use sctl.Supervisor.Window.{crash-Loop}

crash-Loop_example :
    ((record_crash_and_pick_backoff (crashes [] (1000 ∷ 50000 ∷ [])) false 4 100000).flag_written
      ≡ true)
    × ((record_crash_and_pick_backoff (crashes [] (1000 ∷ 50000 ∷ [])) false 4 100000).backoff
        ≡ 300)
crash-Loop_example =
    crash-Loop (1000 ∷ 50000 ∷ []) 100000 4 false (omega arith, (omega arith, (omega arith, tt)))

-- A crash exactly three minutes ago counts, one before it does not.
window_closed : crashes [] (0 ∷ 180000 ∷ 180001 ∷ []) ≡ 180000 ∷ 180001 ∷ []
unfolding crashes record_crash_and_pick_backoff drop_old
window_closed = refl

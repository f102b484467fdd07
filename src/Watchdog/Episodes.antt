-- ===== src/Watchdog/Episodes.antt =====
-- server/src/lte_watchdog.rs: what an episode, from one reset to the next, spends on actions.
use sctl.Prelude.{ℕ, ◌+◌, ◌≤◌, ◌≡◌, Bool, ◌⊎◌, inl, inr, List, [], ◌∷◌, ◌++◌, none, arith, count}
use sctl.Watchdog.State.{WatchdogState}
use sctl.Watchdog.Dispatch.{Effect}
use sctl.Watchdog.Bounds.{Bounded}
use sctl.Watchdog.Spending.{is_reregister, is_airplane_cycle, is_restart, Grown}

-- The actions of an episode so far: AT+COPS=0, airplane cycles, restarts of the interface.
pub record Spent : Type 0 where
  pub registrations : ℕ
  pub cycles : ℕ
  pub restarts : ℕ

abbrev pub nothing : Spent
nothing = record { registrations = 0; cycles = 0; restarts = 0 }

abbrev pub add : Spent → List Effect → Spent
add t es = record {
  registrations = t.registrations + count is_reregister es;
  cycles = t.cycles + count is_airplane_cycle es;
  restarts = t.restarts + count is_restart es;
}

-- One registration, two airplane cycles, and five restarts of the interface: two that are chosen,
-- and one after the registration and each cycle.
pub record Within (t : Spent) : Type 0 where
  pub registrations : t.registrations ≤ 1
  pub cycles : t.cycles ≤ 2
  pub restarts : t.restarts ≤ 5

-- The counters account for what was spent.
pub record Covered (t : Spent) (s : WatchdogState) : Type 0 where
  pub registrations : t.registrations ≤ s.reregisters
  pub cycles : t.cycles ≤ s.airplane_cycles
  pub restarts : t.restarts ≤ s.iface_restarts + s.airplane_cycles + s.reregisters

pub Covered-Within : (t : Spent) (s : WatchdogState) → Covered t s → Bounded s → Within t
Covered-Within t s c v = record {
  registrations = omega (arith, c.registrations, v.reregisters);
  cycles = omega (arith, c.cycles, v.cycles);
  restarts = omega (arith, c.restarts, v.reregisters, v.cycles, v.restarts);
}

pub none-Covered : (s : WatchdogState) → Covered nothing s
none-Covered s = record {
  registrations = omega arith;
  cycles = omega arith;
  restarts = omega arith;
}

pub Grown-Covered :
    (t : Spent) (s after : WatchdogState) → Covered t s → Grown s after 0 0 0 → Covered t after
Grown-Covered t s after c g = record {
  registrations = omega (arith, c.registrations, g.registered);
  cycles = omega (arith, c.cycles, g.cycled);
  restarts = omega (arith, c.restarts, g.registered, g.cycled, g.restarted);
}

-- Nothing that counts.
pub record Free (es : List Effect) : Type 0 where
  pub registrations : count is_reregister es ≡ 0
  pub cycles : count is_airplane_cycle es ≡ 0
  pub restarts : count is_restart es ≡ 0

pub count-append :
    (p : Effect → Bool) (xs ys : List Effect) → count p (xs ++ ys) ≡ count p xs + count p ys
count-append p [] ys = omega arith
count-append p (x ∷ xs) ys = ground (arith, count-append p xs ys)

-- What a step of a round comes to: the spending is within the limits, and then covered, unless the
-- step has ended the outage.
pub record Accounted (t : Spent) (es : List Effect) (s : WatchdogState) : Type 0 where
  pub within : Within (add t es)
  pub covered : (s.tunnel_disconnect_since ≡ none) ⊎ Covered (add t es) s

-- Free effects before others.
pub Accounted-after :
    (t : Spent) (before es : List Effect) (s : WatchdogState)
    → Free before
    → Accounted t es s
    → Accounted t (before ++ es) s
Accounted-after t before es s f h = record {
  within = record {
    registrations = omega (arith, r, f.registrations, h.within.registrations);
    cycles = omega (arith, c, f.cycles, h.within.cycles);
    restarts = omega (arith, i, f.restarts, h.within.restarts);
  };
  covered = elim h.covered [
    | inl e ↦ inl e
    | inr k ↦ inr (record {
      registrations = omega (arith, r, f.registrations, k.registrations);
      cycles = omega (arith, c, f.cycles, k.cycles);
      restarts = omega (arith, i, f.restarts, k.restarts);
    })
  ];
}
  where
    r : count is_reregister (before ++ es) ≡ count is_reregister before + count is_reregister es
    r = count-append is_reregister before es

    c :
        count is_airplane_cycle (before ++ es)
        ≡ count is_airplane_cycle before + count is_airplane_cycle es
    c = count-append is_airplane_cycle before es

    i : count is_restart (before ++ es) ≡ count is_restart before + count is_restart es
    i = count-append is_restart before es

-- Free effects and a state whose counters have not shrunk.
pub Accounted-Free :
    (t : Spent) (es : List Effect) (s : WatchdogState)
    → Free es
    → Bounded s
    → Covered t s
    → Accounted t es s
Accounted-Free t es s f v c =
    let k : Covered (add t es) s = record {
      registrations = omega (arith, f.registrations, c.registrations);
      cycles = omega (arith, f.cycles, c.cycles);
      restarts = omega (arith, f.restarts, c.restarts);
    } in
    record { within = Covered-Within (add t es) s k v; covered = inr k }

-- ===== src/Tunnel/Limits.antt =====
-- server/src/tunnel/relay.rs: what the relay's registry keeps, and which devices a sweep evicts.
use sctl.Prelude.{
  ℕ, ◌+◌, ◌*◌, ◌≡◌, ◌≤◌, refl, sym, ap, ◌∙◌, subst, Bool, ◌==◌, ◌||◌, List, [], ◌∷◌, Option, none,
  some, String, arith, leb, if◌then◌else◌, if-cases, string_eq, str_eq, eq_iff, length, Bool-cases,
  inl, inr,
}
use sctl.Prelude.Map.{
  lookup, insert, remove, Distinct, insert-Distinct, remove-Distinct, Entries, Entries-insert,
  Entries-remove, length-insert-le,
}
use sctl.Tunnel.Registry.{
  RelayState, ConnectedDevice, Answer, new_device, register, end_handler, is_newer,
}
use sctl.Tunnel.Requests.{
  Begun, max_pending_requests, begin_at, begin_request, take_at, take_request, beat_at, heartbeat,
  is_silent, Devices, evict, sweep_dead_devices, Step, registers, ends, begins, takes, beats,
  sweeps, perform, run,
}

abbrev pub Capped : String → ConnectedDevice → Type 0
Capped serial d = length d.pending_requests ≤ max_pending_requests

pub record Sound (st : RelayState) : Type 0 where
  pub distinct : Distinct st.devices
  pub capped : Entries Capped st.devices

-- A device is kept while its last heartbeat, in milliseconds, is at most `timeout` seconds before
-- `now`.
abbrev pub kept : ℕ → ℕ → Option ConnectedDevice → Option ConnectedDevice
kept timeout now none = none
kept timeout now (some d) = if leb now (d.last_heartbeat_ms + 1000 * timeout) then some d else none

kept-is_silent :
    (timeout now : ℕ) (d : ConnectedDevice)
    → kept timeout now (some d) ≡ (if is_silent timeout now d then none else some d)
kept-is_silent timeout now d = ground arith

evict-lookup :
    (timeout now : ℕ) (m : Devices) (serial : String)
    → Distinct m
    → lookup serial (evict timeout now m).0 ≡ kept timeout now (lookup serial m)
unfolding evict lookup
evict-lookup timeout now [] serial d = refl
evict-lookup timeout now ((s, x) ∷ m) serial d = elim (Bool-cases (str_eq s serial)) [
  | inl same ↦ ground (
    arith,
    same,
    kept-is_silent timeout now x,
    evict-lookup timeout now m serial d.1,
    subst (λ k. lookup k m ≡ none) ((eq_iff s serial).0 same) d.0,
  )
  | inr other ↦ ground (arith, other, evict-lookup timeout now m serial d.1)
]

evict-Distinct : (timeout now : ℕ) (m : Devices) → Distinct m → Distinct (evict timeout now m).0
unfolding evict
evict-Distinct timeout now [] d = tt
evict-Distinct timeout now ((s, x) ∷ m) d =
    if-cases (λ (r : Devices × Devices). Distinct r.0) (is_silent timeout now x)
      (λ _. evict-Distinct timeout now m d.1)
      (λ _. (
        evict-lookup timeout now m s d.1 ∙ ap (kept timeout now) d.0,
        evict-Distinct timeout now m d.1,
      ))

evict-Capped :
    (timeout now : ℕ) (m : Devices)
    → Distinct m
    → Entries Capped m
    → Entries Capped (evict timeout now m).0
evict-Capped timeout now m d all serial x h =
    stays (lookup serial m) refl (sym (evict-lookup timeout now m serial d) ∙ h)
  where
    stays :
        (o : Option ConnectedDevice)
        → lookup serial m ≡ o
        → kept timeout now o ≡ some x
        → Capped serial x
    stays none e k = absurd (ground (arith, k))
    stays (some y) e k = all serial x (e ∙ same y k)
      where
        same : (y : ConnectedDevice) → kept timeout now (some y) ≡ some x → some y ≡ some x
        same y k = ground (arith, k)

length-remove-le : (id : String) (ps : List (String × ℕ)) → length (remove id ps) ≤ length ps
unfolding remove
length-remove-le id [] = omega arith
length-remove-le id ((j, c) ∷ ps) = ground (arith, length-remove-le id ps)

module _ (st : RelayState) (v : Sound st) where
  insert-Sound :
      (serial : String) (d : ConnectedDevice)
      → Capped serial d
      → Sound (record st { devices = insert serial d st.devices })
  insert-Sound serial d h = record {
    distinct = insert-Distinct serial d st.devices v.distinct;
    capped = Entries-insert Capped serial d st.devices h v.capped;
  }

  begin-Sound :
      (serial request_id : String) (caller : ℕ)
      → Sound (begin_request st serial request_id caller).0
  unfolding begin_request
  begin-Sound serial request_id caller = found (lookup serial st.devices)
    where
      found : (o : Option ConnectedDevice) → Sound (begin_at st serial request_id caller o).0
      found none = v
      found (some d) =
          if-cases (λ (r : RelayState × Begun). Sound r.0)
            (leb max_pending_requests (length d.pending_requests)) (λ _. v)
            (λ room.
              insert-Sound serial
                (record d { pending_requests = insert request_id caller d.pending_requests })
                (ground (arith, room, length-insert-le request_id caller d.pending_requests)))

  take-Sound :
      (serial : String) (id : ℕ) (request_id : String)
      → Sound (take_request st serial id request_id).0
  unfolding take_request
  take-Sound serial id request_id = found (lookup serial st.devices) refl
    where
      found :
          (o : Option ConnectedDevice)
          → lookup serial st.devices ≡ o
          → Sound (take_at st serial id request_id o).0
      found none e = v
      found (some d) e =
          if-cases (λ (r : RelayState × Option ℕ). Sound r.0) (d.connection_id == id)
            (λ _.
              insert-Sound serial
                (record d { pending_requests = remove request_id d.pending_requests })
                (omega
                  (arith, length-remove-le request_id d.pending_requests, v.capped serial d e)))
            (λ _. v)

  beat-Sound : (serial : String) (id now_ms : ℕ) → Sound (heartbeat st serial id now_ms)
  unfolding heartbeat
  beat-Sound serial id now_ms = found (lookup serial st.devices) refl
    where
      found :
          (o : Option ConnectedDevice)
          → lookup serial st.devices ≡ o
          → Sound (beat_at st serial id now_ms o)
      found none e = v
      found (some d) e =
          if-cases Sound (d.connection_id == id)
            (λ _.
              insert-Sound serial (record d { last_heartbeat_ms = now_ms }) (v.capped serial d e))
            (λ _. v)

  end-Sound :
      (serial : String) (id : ℕ) (replaced : Bool) (reason : String) (now_ms now : ℕ)
      → Sound (end_handler st serial id replaced reason now_ms now).0
  unfolding end_handler
  end-Sound serial id replaced reason now_ms now =
      if-cases (λ (r : RelayState × List Answer). Sound r.0)
        (replaced || is_newer id (lookup serial st.devices))
        (λ _. record { distinct = v.distinct; capped = v.capped })
        (λ _. record {
          distinct = remove-Distinct serial st.devices v.distinct;
          capped = Entries-remove Capped serial st.devices v.capped;
        })

perform-Sound : (s : Step) (st : RelayState) → Sound st → Sound (perform s st)
unfolding perform register sweep_dead_devices
perform-Sound (registers serial key now_ms now) st v = record {
  distinct =
      insert-Distinct serial (new_device st.next_connection_id key now_ms) st.devices v.distinct;
  capped =
      Entries-insert Capped serial (new_device st.next_connection_id key now_ms) st.devices
        (omega arith) v.capped;
}
perform-Sound (ends serial id replaced reason now_ms now) st v =
    end-Sound st v serial id replaced reason now_ms now
perform-Sound (begins serial request_id caller) st v = begin-Sound st v serial request_id caller
perform-Sound (takes serial id request_id) st v = take-Sound st v serial id request_id
perform-Sound (beats serial id now_ms) st v = beat-Sound st v serial id now_ms
perform-Sound (sweeps now_ms now) st v = record {
  distinct = evict-Distinct st.heartbeat_timeout_secs now_ms st.devices v.distinct;
  capped = evict-Capped st.heartbeat_timeout_secs now_ms st.devices v.distinct v.capped;
}

-- Whatever devices and callers do, from a relay without devices on: no serial stands twice in the
-- registry, and no device has more than 256 pending requests.
pub run-Capped : (steps : List Step) (st : RelayState) → st.devices ≡ [] → Sound (run steps st)
unfolding run lookup
run-Capped steps st e = keeps steps st (record {
  distinct = subst Distinct (sym e) tt;
  capped = subst (Entries Capped) (sym e) nothing;
})
  where
    nothing : Entries Capped []
    nothing serial d h = absurd (ground (arith, h))

    keeps : (steps : List Step) (st : RelayState) → Sound st → Sound (run steps st)
    keeps [] st v = v
    keeps (s ∷ steps) st v = keeps steps (perform s st) (perform-Sound s st v)

-- A sweep leaves exactly the devices whose last heartbeat is at most the timeout ago, which is
-- configured in seconds while the heartbeats are in milliseconds; and it leaves them as they were.
pub sweep-Kept :
    (st : RelayState) (now_ms now : ℕ) (serial : String)
    → Distinct st.devices
    → lookup serial (sweep_dead_devices st now_ms now).0.devices
      ≡ kept st.heartbeat_timeout_secs now_ms (lookup serial st.devices)
unfolding sweep_dead_devices
sweep-Kept st now_ms now serial d =
    evict-lookup st.heartbeat_timeout_secs now_ms st.devices serial d

-- ===== src/Transfer/Run/Always.antt =====
-- server/src/gawdxfer/manager.rs: what holds after any sequence of calls.
use sctl.Prelude.{
  ℕ, ◌<◌, ◌^◌, ◌≡◌, subst, true, not, List, [], ◌∷◌, some, String, arith, Option-cases, inl, inr,
  string_eq,
}
use sctl.Transfer.Start.{init_download}
use sctl.Transfer.Start.Upload.{init_upload}
use sctl.Prelude.Map.{
  Distinct, remove-Distinct, map_values-Distinct, filter_keys, lookup, remove, map_values,
  lookup-map_values, Entries, Entries-remove,
}
use sctl.Transfer.Types.{
  TransferConfig, Transfer, TransferManager, Outcome, ok, err, panic, Post, Post-map, bind-Post,
  or_fail-ok, reject_if, reject_if-ok,
}
use sctl.Transfer.Validity.{IsValid, aborted-IsValid}
use sctl.Transfer.Start.Validity.{Started, init_download-Started}
use sctl.Transfer.Start.Upload.Checked.{init_upload-Started}
use sctl.Transfer.Chunks.{find_transfer, can_serve, serve_chunk, serve_check}
use sctl.Transfer.Chunks.Upload.{receive_check}
use sctl.Transfer.Chunks.Receive.{receive_chunk}
use sctl.Transfer.Lifecycle.{
  resume, resumed, abort, pause, pause_all, sweep_stale, remove_each, is_stale,
}
use sctl.Transfer.Run.Invariant.{IsSound, insert-IsSound, Started-IsSound, serve_check-IsSound}
use sctl.Transfer.Run.Uploads.{receive_check-IsSound}
use sctl.Transfer.Run.{
  Call, init_downloads, init_uploads, serves, receives, resumes, aborts, pauses, sweeps, after, new,
  step, run,
}

resumed-IsValid :
    (id : String) (t : Transfer) (now : ℕ)
    → can_serve t.progress.phase ≡ true
    → IsValid id t
    → IsValid id (resumed t now)
unfolding resumed
resumed-IsValid id t now h v = ground arith

pause-IsValid : (id : String) (t : Transfer) → IsValid id t → IsValid id (pause t)
unfolding pause
pause-IsValid id t v = ground arith

-- From what holds of a success to what holds after the call.
after-Post :
    {A : Type 0} (f : A → TransferManager) (m : TransferManager) (o : Outcome A)
    → IsSound m
    → Post (λ r. IsSound (f r)) o
    → IsSound (after f m o)
after-Post f m (ok a) v h = h
after-Post f m (err e) v h = v
after-Post f m panic v h = v

find_transfer-ok :
    (m : TransferManager) (id : String) (t : Transfer)
    → find_transfer m id ≡ ok t
    → lookup id m.transfers ≡ some t
unfolding find_transfer
find_transfer-ok m id t h = or_fail-ok (lookup id m.transfers) _ t h

remove_each-Entries :
    (ids : List String) (m : List (String × Transfer))
    → Entries IsValid m
    → Entries IsValid (remove_each ids m).0
unfolding remove_each
remove_each-Entries [] m h = h
remove_each-Entries (id ∷ ids) m h =
    let rest = remove_each-Entries ids (remove id m) (Entries-remove IsValid id m h) in
    elim (Option-cases (lookup id m)) [
      | inl e ↦ rw (e, remove_each) rest
      | inr (t, e) ↦ rw (e, remove_each) rest
    ]

remove_each-Distinct :
    (ids : List String) (m : List (String × Transfer)) → Distinct m → Distinct (remove_each ids m).0
unfolding remove_each
remove_each-Distinct [] m d = d
remove_each-Distinct (id ∷ ids) m d =
    let rest = remove_each-Distinct ids (remove id m) (remove-Distinct id m d) in
    elim (Option-cases (lookup id m)) [
      | inl e ↦ rw (e, remove_each) rest
      | inr (t, e) ↦ rw (e, remove_each) rest
    ]

module _ (m : TransferManager) (v : IsSound m) where
  resume-IsSound : (id : String) (now : ℕ) → Post (λ r. IsSound r.0) (resume m id now)
  unfolding resume
  resume-IsSound id now =
      bind-Post (λ r. IsSound r.0) (find_transfer m id) _
        λ t e.
          bind-Post (λ r. IsSound r.0) (reject_if (not (can_serve t.progress.phase)) _) _
            λ u c.
              let open_ : can_serve t.progress.phase ≡ true =
                ground (arith, reject_if-ok (not (can_serve t.progress.phase)) _ u c) in
              insert-IsSound m id (resumed t now) v
                (resumed-IsValid id t now open_ (v.all_valid id t (find_transfer-ok m id t e)))

  abort-IsSound : (id : String) → Post (λ r. IsSound r.0) (abort m id)
  unfolding abort
  abort-IsSound id =
      bind-Post (λ r. IsSound r.0) (find_transfer m id) _
        λ t e.
          insert-IsSound m id _ v
            (aborted-IsValid id t (v.all_valid id t (find_transfer-ok m id t e)))

  pause_all-IsSound : IsSound (pause_all m)
  unfolding pause_all
  pause_all-IsSound = record {
    small = v.small;
    distinct = map_values-Distinct pause m.transfers v.distinct;
    all_valid = paused_valid;
  }
    where
      paused_valid : Entries IsValid (map_values pause m.transfers)
      paused_valid id t e = elim (Option-cases (lookup id m.transfers)) [
        | inl n ↦ ground (arith, n, lookup-map_values pause id m.transfers)
        | inr (u, n) ↦
            let q : pause u ≡ t = ground (arith, n, lookup-map_values pause id m.transfers) in
            subst (IsValid id) q (pause-IsValid id u (v.all_valid id u n))
      ]

  sweep_stale-IsSound : (now : ℕ) → IsSound (sweep_stale m now).0
  unfolding sweep_stale
  sweep_stale-IsSound now = record {
    small = v.small;
    distinct =
        remove_each-Distinct (filter_keys (is_stale m now) m.transfers) m.transfers v.distinct;
    all_valid =
        remove_each-Entries (filter_keys (is_stale m now) m.transfers) m.transfers v.all_valid;
  }

module _ (hash_bytes : List ℕ → String) where
  step-IsSound : (m : TransferManager) (c : Call) → IsSound m → IsSound (step hash_bytes m c)
  unfolding step serve_chunk receive_chunk
  step-IsSound m (init_downloads path size a) v =
      after-Post (λ r. r.0) m (init_download m path size a) v
        (Post-map (λ r. Started m a.uuid r.0) (λ r. IsSound r.0) (init_download m path size a)
          (λ r s. Started-IsSound m r.0 a.uuid v s) (init_download-Started m v.small path size a))
  step-IsSound m (init_uploads req a) v =
      after-Post (λ r. r.0) m (init_upload m req a).1 v
        (Post-map _ (λ r. IsSound r.0) (init_upload m req a).1
          (λ r s. Started-IsSound m r.0 a.uuid v s.0) (init_upload-Started m req a v.small))
  step-IsSound m (serves id i a) v = serve_check-IsSound hash_bytes m id v i a (serve_check m id i)
  step-IsSound m (receives id i h payload a) v =
      receive_check-IsSound hash_bytes m id v i h payload a (receive_check m id i)
  step-IsSound m (resumes id now) v =
      after-Post (λ r. r.0) m (resume m id now) v (resume-IsSound m v id now)
  step-IsSound m (aborts id) v = after-Post (λ r. r.0) m (abort m id) v (abort-IsSound m v id)
  step-IsSound m pauses v = pause_all-IsSound m v
  step-IsSound m (sweeps now) v = sweep_stale-IsSound m v now

  run_keeps : (cs : List Call) (m : TransferManager) → IsSound m → IsSound (run hash_bytes m cs)
  unfolding run
  run_keeps [] m v = v
  run_keeps (c ∷ cs) m v = run_keeps cs (step hash_bytes m c) (step-IsSound m c v)

  new-IsSound : (config : TransferConfig) → config.max_file_size < 2 ^ 32 → IsSound (new config)
  unfolding new lookup
  new-IsSound config small = record { small = small; distinct = tt; all_valid = λ id t e. cc }

  -- After any sequence of calls on a new manager whose limit on the file size is below 2^32, whatever
  -- the file system answers: every transfer is kept once, under its own id, has as many slots as its file
  -- has chunks of its chunk size, has all chunks while it is verified or complete, and misses one
  -- while it is started, running or paused.
  pub run-IsSound :
      (config : TransferConfig) (cs : List Call)
      → config.max_file_size < 2 ^ 32
      → IsSound (run hash_bytes (new config) cs)
  run-IsSound config cs small = run_keeps cs (new config) (new-IsSound config small)

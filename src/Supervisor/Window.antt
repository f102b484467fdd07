-- ===== src/Supervisor/Window.antt =====
-- server/src/supervisor.rs: which crashes the detection counts.
use sctl.Prelude.{
  ℕ, ◌+◌, ◌-◌, ◌≤◌, ◌<◌, ◌≡◌, refl, sym, ap, ◌∙◌, inl, inr, List, [], ◌∷◌, ◌++◌, Bool, true, false,
  Bool-cases, arith, leb, if◌then◌else◌, if-cases, length, filter, All, append_assoc, append-nil,
}
use sctl.Supervisor.{
  Crash, crash_loop_window, crash_loop_threshold, safe_mode_backoff_secs, drop_old,
  record_crash_and_pick_backoff, crashes,
}

abbrev pub is_recent : ℕ → ℕ → Bool
is_recent now t = leb (now - t) crash_loop_window

-- The instants are in the order of time.
abbrev pub Ordered : List ℕ → Type 0
Ordered [] = Unit {0}
Ordered (t ∷ ts) = All (λ u. t ≤ u) ts × Ordered ts

-- The instants follow the first one in the order of time.
abbrev pub From : ℕ → List ℕ → Type 0
From t [] = Unit {0}
From t (u ∷ us) = (t ≤ u) × From u us

abbrev pub last_of : ℕ → List ℕ → ℕ
last_of t [] = t
last_of t (u ∷ us) = last_of u us

filter-recent :
    (now t : ℕ) (ts : List ℕ)
    → is_recent now t ≡ true
    → All (λ u. t ≤ u) ts
    → filter (is_recent now) ts ≡ ts
filter-recent now t [] r h = refl
filter-recent now t (u ∷ us) r (h, hs) = ground (arith, filter-recent now t us r hs, r, h)

-- Old crashes at the front are all of the old crashes.
drop_old-filter :
    (now : ℕ) (ts : List ℕ)
    → Ordered ts
    → drop_old now (ts ++ (now ∷ [])) ≡ filter (is_recent now) ts ++ (now ∷ [])
unfolding drop_old
drop_old-filter now [] o = ground arith
drop_old-filter now (t ∷ ts) (h, o) = elim (Bool-cases (is_recent now t)) [
  | inl recent ↦ ground (arith, recent, filter-recent now t ts recent h)
  | inr old ↦ ground (arith, old, drop_old-filter now ts o)
]

All-filter : (P : ℕ → Type 0) (p : ℕ → Bool) (ts : List ℕ) → All P ts → All P (filter p ts)
All-filter P p [] h = tt
All-filter P p (t ∷ ts) (h, hs) =
    if-cases (All P) (p t) (λ _. (h, All-filter P p ts hs)) (λ _. All-filter P p ts hs)

Ordered-filter : (p : ℕ → Bool) (ts : List ℕ) → Ordered ts → Ordered (filter p ts)
Ordered-filter p [] o = tt
Ordered-filter p (t ∷ ts) (h, o) =
    if-cases Ordered (p t) (λ _. (All-filter (λ u. t ≤ u) p ts h, Ordered-filter p ts o))
      (λ _. Ordered-filter p ts o)

-- What is recent now was recent before.
filter-filter :
    (last now : ℕ) (ts : List ℕ)
    → last ≤ now
    → filter (is_recent now) (filter (is_recent last) ts) ≡ filter (is_recent now) ts
filter-filter last now [] h = refl
filter-filter last now (t ∷ ts) h = ground (arith, filter-filter last now ts h, h)

All-append : (P : ℕ → Type 0) (ts : List ℕ) (t : ℕ) → All P ts → P t → All P (ts ++ (t ∷ []))
All-append P [] t h p = (p, tt)
All-append P (u ∷ us) t (h, hs) p = (h, All-append P us t hs p)

All-le : (s t : ℕ) (ts : List ℕ) → s ≤ t → All (λ u. u ≤ s) ts → All (λ u. u ≤ t) ts
All-le s t [] h hs = tt
All-le s t (u ∷ us) h (k, ks) = (omega (arith, h, k), All-le s t us h ks)

Ordered-append : (ts : List ℕ) (t : ℕ) → Ordered ts → All (λ u. u ≤ t) ts → Ordered (ts ++ (t ∷ []))
Ordered-append [] t o h = (tt, tt)
Ordered-append (u ∷ us) t (k, o) (h, hs) =
    (All-append (λ v. u ≤ v) us t k h, Ordered-append us t o hs)

kept : List ℕ → ℕ → List ℕ
kept history now = drop_old now (history ++ (now ∷ []))

record-history :
    (history : List ℕ) (engaged : Bool) (normal now : ℕ)
    → (record_crash_and_pick_backoff history engaged normal now).history ≡ kept history now
unfolding record_crash_and_pick_backoff kept
record-history history engaged normal now =
    if-cases (λ (c : Crash). c.history ≡ kept history now)
      (leb crash_loop_threshold (length (kept history now))) (λ _. refl) (λ _. refl)

abbrev is_loop : ℕ → Bool
is_loop n = leb crash_loop_threshold n

record-flag :
    (history : List ℕ) (engaged : Bool) (normal now : ℕ)
    → (record_crash_and_pick_backoff history engaged normal now).flag_written
      ≡ is_loop (length (kept history now))
unfolding record_crash_and_pick_backoff kept
record-flag history engaged normal now =
    if-cases (λ (c : Crash). c.flag_written ≡ is_loop (length (kept history now)))
      (leb crash_loop_threshold (length (kept history now))) (λ e. sym e) (λ e. sym e)

abbrev wait : Bool → ℕ → ℕ
wait b normal = if b then safe_mode_backoff_secs else normal

record-backoff :
    (history : List ℕ) (engaged : Bool) (normal now : ℕ)
    → (record_crash_and_pick_backoff history engaged normal now).backoff
      ≡ wait (is_loop (length (kept history now))) normal
unfolding record_crash_and_pick_backoff kept
record-backoff history engaged normal now =
    if-cases (λ (c : Crash). c.backoff ≡ wait (is_loop (length (kept history now))) normal)
      (leb crash_loop_threshold (length (kept history now))) (λ e. ap (λ b. wait b normal) (sym e))
      (λ e. ap (λ b. wait b normal) (sym e))

-- What is recent of the past and the present crash.
filter-snoc :
    (past : List ℕ) (now : ℕ)
    → filter (is_recent now) past ++ (now ∷ []) ≡ filter (is_recent now) (past ++ (now ∷ []))
filter-snoc [] now = ground arith
filter-snoc (t ∷ ts) now = ground (arith, filter-snoc ts now)

-- The history after crashes is that of the crashes of the last three minutes.
crashes-filter :
    (past : List ℕ) (last : ℕ) (ts : List ℕ)
    → Ordered past
    → All (λ u. u ≤ last) past
    → From last ts
    → crashes (filter (is_recent last) past) ts ≡ filter (is_recent (last_of last ts)) (past ++ ts)
unfolding crashes kept
crashes-filter past last [] o h f = ap (filter (is_recent last)) (sym (append-nil past))
crashes-filter past last (t ∷ ts) o h (k, f) =
    ap (λ h. crashes h ts)
      (record-history (filter (is_recent last) past) false 1 t
        ∙ drop_old-filter t (filter (is_recent last) past) (Ordered-filter (is_recent last) past o)
        ∙ ap (λ us. us ++ (t ∷ [])) (filter-filter last t past k)
        ∙ filter-snoc past t)
    ∙ crashes-filter (past ++ (t ∷ [])) t ts (Ordered-append past t o (All-le last t past k h))
        (All-append (λ u. u ≤ t) past t (All-le last t past k h) (omega arith)) f
    ∙ ap (filter (is_recent (last_of t ts))) (append_assoc past (t ∷ []) ts)

crashes-append :
    (ts history : List ℕ) (now : ℕ)
    → crashes history (ts ++ (now ∷ []))
      ≡ (record_crash_and_pick_backoff (crashes history ts) false 1 now).history
unfolding crashes
crashes-append [] history now = refl
crashes-append (t ∷ ts) history now =
    crashes-append ts (record_crash_and_pick_backoff history false 1 t).history now

last_of-append : (s : ℕ) (ts : List ℕ) (now : ℕ) → last_of s (ts ++ (now ∷ [])) ≡ now
last_of-append s [] now = refl
last_of-append s (t ∷ ts) now = last_of-append t ts now

-- All crashes of the last three minutes, the present one among them.
abbrev pub recent : List ℕ → ℕ → List ℕ
recent ts now = filter (is_recent now) (ts ++ (now ∷ []))

kept-recent :
    (ts : List ℕ) (now : ℕ) → From 0 (ts ++ (now ∷ [])) → kept (crashes [] ts) now ≡ recent ts now
unfolding crashes
kept-recent ts now f =
    sym (record-history (crashes [] ts) false 1 now)
    ∙ sym (crashes-append ts [] now)
    ∙ crashes-filter [] 0 (ts ++ (now ∷ [])) tt tt f
    ∙ ap (λ t. filter (is_recent t) (ts ++ (now ∷ []))) (last_of-append 0 ts now)

-- After any crashes in the order of time, a crash writes the flag of the safe mode, and is followed
-- by the wait of the safe mode instead of the normal one, exactly if at least three crashes, the
-- present one among them, were in the last three minutes.
pub crash-Loop :
    (ts : List ℕ) (now normal : ℕ) (engaged : Bool)
    → From 0 (ts ++ (now ∷ []))
    → ((record_crash_and_pick_backoff (crashes [] ts) engaged normal now).flag_written
        ≡ is_loop (length (recent ts now)))
      × ((record_crash_and_pick_backoff (crashes [] ts) engaged normal now).backoff
          ≡ (if is_loop (length (recent ts now)) then safe_mode_backoff_secs else normal))
crash-Loop ts now normal engaged f = (
  record-flag (crashes [] ts) engaged normal now
      ∙ ap (λ us. is_loop (length us)) (kept-recent ts now f),
  record-backoff (crashes [] ts) engaged normal now
      ∙ ap (λ us. wait (is_loop (length us)) normal) (kept-recent ts now f),
)

-- No crash of the list is recent.
From-le : (u : ℕ) (us : List ℕ) (now : ℕ) → From u (us ++ (now ∷ [])) → u ≤ now
From-le u [] now (h, f) = h
From-le u (v ∷ us) now (h, f) = omega (arith, h, From-le v us now f)

recent-one :
    (s : ℕ) (ts : List ℕ) (now later : ℕ)
    → From s (ts ++ (now ∷ []))
    → now + crash_loop_window < later
    → recent (ts ++ (now ∷ [])) later ≡ later ∷ []
recent-one s [] now later f h = ground (arith, h)
recent-one s (t ∷ ts) now later (k, f) h =
    ground (arith, recent-one t ts now later f h, From-le t ts now f, h)

-- The crash after a wait of more than three minutes, and so the one after the wait of the safe mode,
-- is followed by the normal wait again, also when the safe mode is engaged.
pub backoff-Lapses :
    (ts : List ℕ) (now later normal : ℕ) (engaged : Bool)
    → From 0 (ts ++ (now ∷ []))
    → From 0 (ts ++ (now ∷ []) ++ (later ∷ []))
    → now + crash_loop_window < later
    → (record_crash_and_pick_backoff (crashes [] (ts ++ (now ∷ []))) engaged normal later).backoff
      ≡ normal
backoff-Lapses ts now later normal engaged f g h =
    (crash-Loop (ts ++ (now ∷ [])) later normal engaged g).1
    ∙ ap (λ us. wait (is_loop (length us)) normal) (recent-one 0 ts now later f h)

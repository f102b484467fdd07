-- ===== src/Activity/Log/History.antt =====
-- server/src/activity.rs: what the log's readers see of everything that was logged.
use sctl.Prelude.{
  ℕ, suc, ◌+◌, ◌-◌, ◌<◌, ◌^◌, max, ◌≡◌, refl, sym, ap, ◌∙◌, subst, Bool, List, [], ◌∷◌, ◌++◌,
  Option, String, arith, ltb, ◌&&◌, length, drop, drop_all, take, filter, length-append, append-nil,
  append_assoc,
}
use sctl.Prelude.Ring.{capacity, Numbered, Numbered-append, push_bounded-drop, filter-drop-Numbered}
use sctl.Activity.Types.{ActivityType, ActivitySource, same_type, same_source}
use sctl.Activity.Log.{
  ActivityEntry, ActivityLog, Activity, new, entry_of, log, read_since, read_since_filtered,
  is_none_or, in_session,
}

module _ {Value : Type 0} where
  abbrev pub log_all : ActivityLog Value → List (Activity Value) → ActivityLog Value
  log_all l [] = l
  log_all l (a ∷ rest) = log_all (log l a).0 rest

  -- Everything that was logged, with ids from `n` on.
  abbrev pub logged : ℕ → List (Activity Value) → List (ActivityEntry Value)
  logged n [] = []
  logged n (a ∷ rest) = entry_of n a ∷ logged (suc n) rest

  record Holds (m : ℕ) (l : ActivityLog Value) (h : List (ActivityEntry Value)) : Type 0 where
    size : l.max_entries ≡ m
    kept : l.entries ≡ drop (length h - capacity m) h
    next : l.next_id ≡ suc (length h)
    ids : Numbered (λ e. e.id) 1 h

  new-Holds : (m : ℕ) → Holds m (new m) []
  unfolding new
  new-Holds m = record {
    size = refl;
    kept = sym (drop_all (0 - capacity m) [] (omega arith));
    next = refl;
    ids = tt;
  }

  log-Holds :
      (m : ℕ) (l : ActivityLog Value) (h : List (ActivityEntry Value)) (a : Activity Value)
      → Holds m l h
      → suc (suc (length h)) < 2 ^ 64
      → Holds m (log l a).0 (h ++ (entry_of (suc (length h)) a ∷ []))
  unfolding log
  log-Holds m l h a v fits =
      let e : ActivityEntry Value = entry_of (suc (length h)) a in
      record {
        size = v.size;
        kept = ground (arith, v.size, v.next, push_bounded-drop m h l.entries e v.kept);
        next = omega (arith, v.next, length-append h (e ∷ []));
        ids = Numbered-append (λ e. e.id) 1 h e v.ids (omega arith);
      }

  log_all-Holds_from :
      (m : ℕ) (acts : List (Activity Value)) (l : ActivityLog Value)
      (h : List (ActivityEntry Value))
      → Holds m l h
      → suc (length h + length acts) < 2 ^ 64
      → Holds m (log_all l acts) (h ++ logged (suc (length h)) acts)
  log_all-Holds_from m [] l h v fits = rw append-nil v
  log_all-Holds_from m (a ∷ rest) l h v fits =
      let e : ActivityEntry Value = entry_of (suc (length h)) a in
      let n : length (h ++ (e ∷ [])) ≡ suc (length h) = length-append h (e ∷ []) ∙ (omega arith) in
      let next = log-Holds m l h a v (omega arith) in
      let all = log_all-Holds_from m rest (log l a).0 (h ++ (e ∷ [])) next (omega (arith, n)) in
      subst (Holds m (log_all l (a ∷ rest)))
        (append_assoc h (e ∷ []) _ ∙ ap (λ k. h ++ (e ∷ logged (suc k) rest)) n) all

  log_all-Holds :
      (m : ℕ) (acts : List (Activity Value))
      → suc (length acts) < 2 ^ 64
      → Holds m (log_all (new m) acts) (logged 1 acts)
  log_all-Holds m acts fits = log_all-Holds_from m acts (new m) [] (new-Holds m) (omega arith)

  length-logged : (n : ℕ) (acts : List (Activity Value)) → length (logged n acts) ≡ length acts
  length-logged n [] = refl
  length-logged n (a ∷ rest) = ap suc (length-logged (suc n) rest)

  newer-log_all :
      (m : ℕ) (acts : List (Activity Value)) (since : ℕ)
      → suc (length acts) < 2 ^ 64
      → filter (λ e. ltb since e.id) (log_all (new m) acts).entries
        ≡ drop (max since (length acts - capacity m)) (logged 1 acts)
  newer-log_all m acts since fits =
      let v = log_all-Holds m acts fits in
      ap (filter (λ e. ltb since e.id)) v.kept
      ∙ filter-drop-Numbered (λ e. e.id) since (length (logged 1 acts) - capacity m) (logged 1 acts)
          v.ids
      ∙ ap (λ n. drop (max since (n - capacity m)) (logged 1 acts)) (length-logged 1 acts)

  -- After any calls of `log` on a new journal (fewer than 2^64 - 1, one after the other), a read
  -- from `since` returns the first `limit` of exactly those entries with larger ids that the journal
  -- still holds, and the next call of `log` returns the id after all of them.
  pub read_since-log_all :
      (m : ℕ) (acts : List (Activity Value)) (since limit : ℕ) (a : Activity Value)
      → suc (length acts) < 2 ^ 64
      → (read_since (log_all (new m) acts) since limit
          ≡ take limit (drop (max since (length acts - capacity m)) (logged 1 acts)))
        × ((log (log_all (new m) acts) a).1 ≡ suc (length acts))
  unfolding read_since log
  read_since-log_all m acts since limit a fits = (
    ap (take limit) (newer-log_all m acts since fits),
    (log_all-Holds m acts fits).next ∙ ap suc (length-logged 1 acts),
  )

  -- Whether an entry meets all of the filters.
  abbrev pub accepts :
      (Value → Option String)
      → Option ActivityType
      → Option ActivitySource
      → Option String
      → ActivityEntry Value
      → Bool
  accepts session_id_of t s sid e =
      (is_none_or (same_type e.activity_type) t && is_none_or (same_source e.source) s)
      && is_none_or (λ k. in_session session_id_of k e) sid

  filter-filter :
      (p q : ActivityEntry Value → Bool) (xs : List (ActivityEntry Value))
      → filter q (filter p xs) ≡ filter (λ e. p e && q e) xs
  filter-filter p q [] = refl
  filter-filter p q (x ∷ xs) = ground (arith, filter-filter p q xs)

  -- The filtered read returns the first `limit` of those entries which an unlimited plain read
  -- returns that meet all of the given filters.
  pub read_since_filtered-log_all :
      (session_id_of : Value → Option String) (m : ℕ) (acts : List (Activity Value))
      (since limit : ℕ) (t : Option ActivityType) (s : Option ActivitySource) (sid : Option String)
      → suc (length acts) < 2 ^ 64
      → read_since_filtered session_id_of (log_all (new m) acts) since limit t s sid
        ≡ take limit (
            filter
              (accepts session_id_of t s sid)
              (drop (max since (length acts - capacity m)) (logged 1 acts)))
  unfolding read_since_filtered
  read_since_filtered-log_all session_id_of m acts since limit t s sid fits =
      let xs = filter (λ e. ltb since e.id) (log_all (new m) acts).entries in
      let p : ActivityEntry Value → Bool = λ e. is_none_or (same_type e.activity_type) t in
      let q : ActivityEntry Value → Bool = λ e. is_none_or (same_source e.source) s in
      let r : ActivityEntry Value → Bool =
        λ e. is_none_or (λ k. in_session session_id_of k e) sid in
      ap (take limit) (
        ap (filter r) (filter-filter p q xs)
        ∙ filter-filter (λ e. p e && q e) r xs
        ∙ ap (filter (accepts session_id_of t s sid)) (newer-log_all m acts since fits))

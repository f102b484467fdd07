-- ===== src/Sessions/Buffer/Reading.antt =====
-- server/src/sessions/buffer.rs: what a reader of the buffer sees of the history.
use sctl.Prelude.{
  ℕ, suc, ◌+◌, ◌-◌, ◌≤◌, ◌<◌, ◌^◌, max, ◌≡◌, refl, sym, ap, ◌∙◌, false, List, [], ◌∷◌, ◌++◌, none,
  some, subst, arith, ltb, length, drop, filter, front, back, length-append, length-drop,
  drop-append, drop_all,
}
use sctl.Prelude.Ring.{capacity, Numbered, Numbered-drop, filter-drop-Numbered, drop_eq}
use sctl.Sessions.Entry.{OutputEntry}
use sctl.Sessions.Buffer.{OutputBuffer, new, read_since, has_entries_since, oldest_available}
use sctl.Sessions.Buffer.History.{
  Pushed, push_all, numbered, Holds, push_all-Holds, length-numbered, numbered-append,
  push_all-append,
}

-- The first number that a cut of the history still has.
oldest-Numbered :
    (n next : ℕ) (es : List OutputEntry)
    → Numbered (λ e. e.seq) n es
    → n + length es ≡ next
    → elim (front es) [ none ↦ next | some e ↦ e.seq ] ≡ n
oldest-Numbered n next [] h e = omega arith
oldest-Numbered n next (x ∷ xs) h e = h.0

back_of_empty :
    (es : List OutputEntry) (since : ℕ)
    → length es ≡ 0
    → elim (back es) [ none ↦ false | some e ↦ ltb since e.seq ] ≡ false
back_of_empty [] since e = refl
back_of_empty (x ∷ xs) since e = absurd (omega arith)

module _ (m : ℕ) (b : OutputBuffer) (h : List OutputEntry) (v : Holds m b h) where
  abbrev lost : ℕ
  lost = length h - capacity m

  kept-Numbered : Numbered (λ e. e.seq) (suc lost) b.entries
  kept-Numbered =
      let e : lost + 1 ≡ suc lost = omega arith in
      subst (Numbered (λ e. e.seq) (suc lost)) (sym v.kept) (
        subst (λ n. Numbered (λ e. e.seq) n (drop lost h)) e
          (Numbered-drop (λ e. e.seq) lost 1 h v.seqs))

  length-kept : length b.entries ≡ length h - lost
  length-kept = ap length v.kept ∙ length-drop lost h

  oldest_available_lem : oldest_available b ≡ suc lost
  unfolding oldest_available
  oldest_available_lem =
      oldest-Numbered (suc lost) b.next_seq b.entries kept-Numbered
        (omega (arith, v.next, length-kept))

  read_since-entries : (since : ℕ) → (read_since b since).0 ≡ drop (max since lost) h
  unfolding read_since
  read_since-entries since =
      ap (filter (λ e. ltb since e.seq)) v.kept
      ∙ filter-drop-Numbered (λ e. e.seq) since lost h v.seqs

  read_since-dropped : (since : ℕ) → suc (length h) < 2 ^ 64 → (read_since b since).1 ≡ lost - since
  unfolding read_since
  read_since-dropped since fits = ground (arith, oldest_available_lem)

  back-Numbered :
      (n : ℕ) (es : List OutputEntry) (since : ℕ)
      → Numbered (λ e. e.seq) (suc n) es
      → 0 < length es
      → elim (back es) [ none ↦ false | some e ↦ ltb since e.seq ] ≡ ltb since (n + length es)
  back-Numbered n [] since h l = absurd (omega arith)
  back-Numbered n (x ∷ []) since h l =
      let e : x.seq ≡ n + 1 = omega (arith, h.0) in ap (ltb since) e
  back-Numbered n (x ∷ y ∷ es) since h l =
      let e : suc n + length (y ∷ es) ≡ n + length (x ∷ y ∷ es) = omega arith in
      back-Numbered (suc n) (y ∷ es) since h.1 (omega arith) ∙ ap (ltb since) e

  has_entries_since-Holds : (since : ℕ) → has_entries_since b since ≡ ltb since (length h)
  unfolding has_entries_since
  has_entries_since-Holds since = ground (
    arith,
    length-kept,
    back-Numbered lost b.entries since kept-Numbered,
    back_of_empty b.entries since,
  )

-- After any pushes into a new buffer of size `m` (fewer than 2^64 - 1 of them), a read from
-- `since` returns exactly the entries numbered above `since` that the buffer can still hold, in
-- order and with their numbers, and reports as dropped exactly the number of those above `since`
-- that it no longer holds.
pub read_since-push_all :
    (m : ℕ) (ps : List Pushed) (since : ℕ)
    → suc (length ps) < 2 ^ 64
    → read_since (push_all (new m) ps) since ≡ (
      drop (max since (length ps - capacity m)) (numbered 1 ps),
      (length ps - capacity m) - since,
    )
read_since-push_all m ps since fits =
    let v = push_all-Holds m ps fits in
    let n = length-numbered 1 ps in
    ground (
      arith,
      n,
      read_since-entries m (push_all (new m) ps) (numbered 1 ps) v since,
      read_since-dropped m (push_all (new m) ps) (numbered 1 ps) v since,
    )

-- Nothing is lost in silence: for a reader at `since`, no further than what was pushed, the number
-- of entries that it gets and the number reported as dropped add up to all that came after `since`.
pub read_since_accounts :
    (m : ℕ) (ps : List Pushed) (since : ℕ)
    → suc (length ps) < 2 ^ 64
    → since ≤ length ps
    → let (out, dropped) = read_since (push_all (new m) ps) since in
      since + dropped + length out ≡ length ps
read_since_accounts m ps since fits h = rw (read_since-push_all m ps since fits) (
    omega (
      arith,
      length-drop (max since (length ps - capacity m)) (numbered 1 ps),
      length-numbered 1 ps,
    ))

-- A reader that has seen the first `ps` and comes back after at most a bufferful more, `qs`,
-- gets exactly those, in order, and is told that nothing was dropped.
pub read_since_resumes :
    (m : ℕ) (ps qs : List Pushed)
    → suc (length ps + length qs) < 2 ^ 64
    → length qs ≤ capacity m
    → read_since (push_all (push_all (new m) ps) qs) (length ps)
      ≡ (numbered (suc (length ps)) qs, 0)
read_since_resumes m ps qs fits h =
    let n = length-append ps qs in
    let seen : drop (length ps) (numbered 1 (ps ++ qs)) ≡ numbered (suc (length ps)) qs =
      ap (drop (length ps)) (numbered-append 1 ps qs)
      ∙ drop-append (length ps) (numbered 1 ps) (numbered (1 + length ps) qs)
          (omega (arith, length-numbered 1 ps))
      ∙ ap (λ xs. xs ++ numbered (1 + length ps) qs)
          (drop_all (length ps) (numbered 1 ps) (omega (arith, length-numbered 1 ps)))
      ∙ ap (λ k. numbered k qs) (omega arith) in
    rw (← push_all-append (new m) ps qs) (
      ground (
        arith,
        n,
        seen,
        read_since-push_all m (ps ++ qs) (length ps),
        drop_eq (max (length ps) (length (ps ++ qs) - capacity m)) (length ps)
            (numbered 1 (ps ++ qs)),
      ))

-- `has_entries_since` says whether anything was pushed after `since`.
pub has_entries_since-push_all :
    (m : ℕ) (ps : List Pushed) (since : ℕ)
    → suc (length ps) < 2 ^ 64
    → has_entries_since (push_all (new m) ps) since ≡ ltb since (length ps)
has_entries_since-push_all m ps since fits =
    let v = push_all-Holds m ps fits in
    has_entries_since-Holds m (push_all (new m) ps) (numbered 1 ps) v since
    ∙ ap (ltb since) (length-numbered 1 ps)

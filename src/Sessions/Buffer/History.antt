-- ===== src/Sessions/Buffer/History.antt =====
-- server/src/sessions/buffer.rs against the list of everything that was ever pushed.
use sctl.Prelude.{
  ℕ, suc, ◌+◌, ◌-◌, ◌<◌, ◌^◌, ◌≡◌, refl, sym, ap, ◌∙◌, List, [], ◌∷◌, ◌++◌, String, arith, length,
  drop, length-append, drop_all, append-nil, append_assoc, subst,
}
use sctl.Prelude.Ring.{capacity, Numbered, Numbered-append, push_bounded-drop}
use sctl.Sessions.Entry.{OutputStream, OutputEntry}
use sctl.Sessions.Buffer.{OutputBuffer, new, push}

-- What a caller of `push` gives.
pub record Pushed : Type 0 where
  pub stream : OutputStream
  pub payload : String
  pub now : ℕ

abbrev pub push_all : OutputBuffer → List Pushed → OutputBuffer
push_all b [] = b
push_all b (p ∷ ps) = push_all (push b p.stream p.payload p.now).0 ps

abbrev pub entry_of : ℕ → Pushed → OutputEntry
entry_of n p = record { seq = n; stream = p.stream; payload = p.payload; timestamp_ms = p.now }

-- The history: every pushed entry, numbered from `n` on.
abbrev pub numbered : ℕ → List Pushed → List OutputEntry
numbered n [] = []
numbered n (p ∷ ps) = entry_of n p ∷ numbered (suc n) ps

-- The buffer of size `m` holds the end of the history `h`, and numbers on from it.
pub record Holds (m : ℕ) (b : OutputBuffer) (h : List OutputEntry) : Type 0 where
  pub size : b.max_entries ≡ m
  pub kept : b.entries ≡ drop (length h - capacity m) h
  pub next : b.next_seq ≡ suc (length h)
  pub seqs : Numbered (λ e. e.seq) 1 h

new-Holds : (m : ℕ) → Holds m (new m) []
unfolding new
new-Holds m = record {
  size = refl;
  kept = sym (drop_all (0 - capacity m) [] (omega arith));
  next = refl;
  seqs = tt;
}

module _ (m : ℕ) (b : OutputBuffer) (h : List OutputEntry) (v : Holds m b h) (p : Pushed) where
  abbrev entry : OutputEntry
  entry = entry_of (suc (length h)) p

  push-kept :
      (push b p.stream p.payload p.now).0.entries
      ≡ drop (length (h ++ (entry ∷ [])) - capacity m) (h ++ (entry ∷ []))
  unfolding push
  push-kept = ground (arith, v.size, v.next, push_bounded-drop m h b.entries entry v.kept)

  push-Holds :
      suc (suc (length h)) < 2 ^ 64
      → Holds m (push b p.stream p.payload p.now).0 (h ++ (entry ∷ []))
  unfolding push
  push-Holds fits = record {
    size = v.size;
    kept = push-kept;
    next = omega (arith, v.next, length-append h (entry ∷ []));
    seqs = Numbered-append (λ e. e.seq) 1 h entry v.seqs (omega arith);
  }

push_all-Holds_from :
    (m : ℕ) (ps : List Pushed) (b : OutputBuffer) (h : List OutputEntry)
    → Holds m b h
    → suc (length h + length ps) < 2 ^ 64
    → Holds m (push_all b ps) (h ++ numbered (suc (length h)) ps)
push_all-Holds_from m [] b h v fits = rw append-nil v
push_all-Holds_from m (p ∷ ps) b h v fits =
    let h' : List OutputEntry = h ++ (entry m b h v p ∷ []) in
    let n : length h' ≡ suc (length h) = length-append h _ ∙ (omega arith) in
    let next = push-Holds m b h v p (omega arith) in
    let rest = push_all-Holds_from m ps _ h' next (omega (arith, n)) in
    subst (λ k. Holds m (push_all b (p ∷ ps)) k)
      (append_assoc h _ _ ∙ ap (λ k. h ++ (entry m b h v p ∷ numbered (suc k) ps)) n) rest

-- After any pushes a new buffer holds the end of the history.
pub push_all-Holds :
    (m : ℕ) (ps : List Pushed)
    → suc (length ps) < 2 ^ 64
    → Holds m (push_all (new m) ps) (numbered 1 ps)
push_all-Holds m ps fits = push_all-Holds_from m ps (new m) [] (new-Holds m) (omega arith)

pub length-numbered : (n : ℕ) (ps : List Pushed) → length (numbered n ps) ≡ length ps
length-numbered n [] = refl
length-numbered n (p ∷ ps) = ap suc (length-numbered (suc n) ps)

pub numbered-append :
    (n : ℕ) (ps qs : List Pushed)
    → numbered n (ps ++ qs) ≡ numbered n ps ++ numbered (n + length ps) qs
numbered-append n [] qs = let e : n ≡ n + 0 = omega arith in ap (λ k. numbered k qs) e
numbered-append n (p ∷ ps) qs =
    let e : suc n + length ps ≡ n + suc (length ps) = omega arith in
    ap (◌∷◌ (entry_of n p))
      (numbered-append (suc n) ps qs ∙ ap (λ k. numbered (suc n) ps ++ numbered k qs) e)

pub push_all-append :
    (b : OutputBuffer) (ps qs : List Pushed) → push_all b (ps ++ qs) ≡ push_all (push_all b ps) qs
push_all-append b [] qs = refl
push_all-append b (p ∷ ps) qs = push_all-append (push b p.stream p.payload p.now).0 ps qs

-- ===== src/Sessions/Manager/Trimming.antt =====
-- server/src/sessions/mod.rs: the recovery leaves at most the configured number of sessions.
use sctl.Prelude.{
  zero, if-cases, ℕ, ◌+◌, ◌-◌, suc, ◌≤◌, ◌≡◌, refl, sym, ap, ◌∙◌, subst, Bool, true, false, inl,
  inr, List, [], ◌∷◌, map, Option, none, some, String, arith, if◌then◌else◌, leb, length, take,
  Bool-cases, string_eq, eq_iff, str_eq,
}
use sctl.Prelude.Map.{lookup, remove, lookup-remove, Distinct, remove-Distinct, map_option}
use sctl.Sessions.Manager.{SessionEntry, Pool, SessionManager}
use sctl.Sessions.Manager.Sweep.{remove_each, removed}
use sctl.Sessions.Manager.Recover.{insert_by_created, ids_by_created, trim}

abbrev is_some {ℓ} : {A : Type ℓ} → Option A → Bool
is_some none = false
is_some (some a) = true

length-remove_absent : (k : String) (m : Pool) → lookup k m ≡ none → length (remove k m) ≡ length m
unfolding lookup remove
length-remove_absent k [] h = refl
length-remove_absent k ((j, e) ∷ m) h = ground (arith, length-remove_absent k m, h)

length-remove_present :
    (k : String) (m : Pool)
    → Distinct m
    → is_some (lookup k m) ≡ true
    → suc (length (remove k m)) ≡ length m
unfolding lookup remove
length-remove_present k [] d h = absurd (cc h)
length-remove_present k ((j, e) ∷ m) d h = elim (Bool-cases (str_eq j k)) [
  | inl same ↦ ground (
    arith,
    same,
    length-remove_absent k m (subst (λ i. lookup i m ≡ none) ((eq_iff j k).0 same) d.0),
  )
  | inr other ↦ ground (arith, other, length-remove_present k m d.1, h)
]

abbrev Ids : Type 0
Ids = List (String × ℕ)

lookup-insert_by :
    (id : String) (t : ℕ) (l : Ids) (j : String)
    → lookup id l ≡ none
    → lookup j (insert_by_created id t l) ≡ (if str_eq id j then some t else lookup j l)
unfolding lookup insert_by_created
lookup-insert_by id t [] j h = refl
lookup-insert_by id t ((i, u) ∷ l) j h =
    ground (arith, lookup-insert_by id t l j, h, eq_iff id j, eq_iff i j, eq_iff i id)

insert_by-Distinct :
    (id : String) (t : ℕ) (l : Ids)
    → lookup id l ≡ none
    → Distinct l
    → Distinct (insert_by_created id t l)
unfolding lookup insert_by_created
insert_by-Distinct id t [] h d = (refl, tt)
insert_by-Distinct id t ((i, u) ∷ l) h d =
    let tail : lookup id l ≡ none = ground (arith, h) in
    if-cases Distinct (leb t u) (λ _. (h, d))
      (λ _. (
        ground (arith, lookup-insert_by id t l i tail, h, d.0, eq_iff id i, eq_iff i id),
        insert_by-Distinct id t l tail d.1,
      ))

length-insert_by :
    (id : String) (t : ℕ) (l : Ids) → length (insert_by_created id t l) ≡ suc (length l)
unfolding insert_by_created
length-insert_by id t [] = refl
length-insert_by id t ((i, u) ∷ l) = ground (arith, length-insert_by id t l)

-- The sorted ids are those of the pool.
lookup-ids :
    (m : Pool) (j : String)
    → Distinct m
    → lookup j (ids_by_created m) ≡ map_option (λ e. e.created_at) (lookup j m)
unfolding lookup ids_by_created
lookup-ids [] j d = refl
lookup-ids ((i, e) ∷ m) j d = ground (
  arith,
  lookup-ids m j d.1,
  lookup-insert_by i e.created_at (ids_by_created m) j
      (lookup-ids m i d.1 ∙ ap (map_option (λ e. e.created_at)) d.0),
)

ids-Distinct : (m : Pool) → Distinct m → Distinct (ids_by_created m)
unfolding ids_by_created
ids-Distinct [] d = tt
ids-Distinct ((i, e) ∷ m) d =
    insert_by-Distinct i e.created_at (ids_by_created m)
      (lookup-ids m i d.1 ∙ ap (map_option (λ e. e.created_at)) d.0) (ids-Distinct m d.1)

length-ids : (m : Pool) → length (ids_by_created m) ≡ length m
unfolding ids_by_created
length-ids [] = refl
length-ids ((i, e) ∷ m) =
    ground (arith, length-insert_by i e.created_at (ids_by_created m), length-ids m)

-- The first ids are among all.
lookup-take :
    (n : ℕ) (l : Ids) (j : String)
    → is_some (lookup j (take n l)) ≡ true
    → is_some (lookup j l) ≡ true
unfolding lookup
lookup-take zero l j h = absurd (cc h)
lookup-take (suc n) [] j h = h
lookup-take (suc n) ((i, t) ∷ l) j h = ground (arith, lookup-take n l j, h)

take-Distinct : (n : ℕ) (l : Ids) → Distinct l → Distinct (take n l)
take-Distinct zero l d = tt
take-Distinct (suc n) [] d = tt
take-Distinct (suc n) ((i, t) ∷ l) d =
    (absent (lookup i (take n l)) (lookup-take n l i), take-Distinct n l d.1)
  where
    absent : (o : Option ℕ) → (is_some o ≡ true → is_some (lookup i l) ≡ true) → o ≡ none
    absent none h = refl
    absent (some u) h = absurd (cc (sym (h refl) ∙ ap is_some d.0))

length-take_le : (n : ℕ) (l : Ids) → n ≤ length l → length (take n l) ≡ n
length-take_le zero l h = refl
length-take_le (suc n) [] h = omega (arith, h)
length-take_le (suc n) (x ∷ l) h = ground (arith, length-take_le n l, h)

length-removed :
    (i : String) (o : Option SessionEntry) (same rest : Pool × Pool)
    → is_some o ≡ true
    → length (removed i o same rest).0 ≡ length rest.0
length-removed i none same rest h = absurd (cc h)
length-removed i (some e) same rest h = refl

still_present :
    (i : String) (t : ℕ) (l : Ids) (m : Pool) (j : String)
    → lookup i l ≡ none
    → (is_some (lookup j ((i, t) ∷ l)) ≡ true → is_some (lookup j m) ≡ true)
    → is_some (lookup j l) ≡ true
    → is_some (lookup j (remove i m)) ≡ true
unfolding lookup
still_present i t l m j dl h p = elim (Bool-cases (str_eq i j)) [
  | inl same ↦ absurd (cc (p, ap is_some (subst (λ k. lookup k l ≡ none) ((eq_iff i j).0 same) dl)))
  | inr other ↦ ground (arith, other, h, p, lookup-remove i j m)
]

-- Each of the ids takes one session away.
length-remove_each :
    (l : Ids) (m : Pool)
    → Distinct l
    → Distinct m
    → ((j : String) → is_some (lookup j l) ≡ true → is_some (lookup j m) ≡ true)
    → length (remove_each (map (λ x. x.0) l) m).0 + length l ≡ length m
unfolding remove_each lookup
length-remove_each [] m dl dm h = omega arith
length-remove_each ((i, t) ∷ l) m dl dm h =
    let found : is_some (lookup i m) ≡ true = h i (ground (arith, eq_iff i i)) in
    let ids = map (λ (x : String × ℕ). x.0) l in
    omega (
      arith,
      length-removed i (lookup i m) (remove_each ids m) (remove_each ids (remove i m)) found,
      length-remove_present i m dm found,
      length-remove_each l (remove i m) dl.1 (remove-Distinct i m dm)
          (λ j. still_present i t l m j dl.0 (h j)),
    )

pub length-trim :
    (mgr : SessionManager) → Distinct mgr.sessions → length (trim mgr).sessions ≤ mgr.max_sessions
unfolding trim
length-trim mgr d =
    let m = mgr.sessions in
    let ids = ids_by_created m in
    let excess = length m - mgr.max_sessions in
    let l = take excess ids in
    omega (
      arith,
      length-remove_each l m (take-Distinct excess ids (ids-Distinct m d)) d (λ j h.
          mapped (lookup j m) (sym (ap is_some (lookup-ids m j d)) ∙ lookup-take excess ids j h)),
      length-take_le excess ids (omega (arith, length-ids m)),
    )
  where
    mapped :
        (o : Option SessionEntry)
        → is_some (map_option (λ e. e.created_at) o) ≡ true
        → is_some o ≡ true
    mapped none h = h
    mapped (some e) h = refl

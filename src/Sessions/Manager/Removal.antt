-- ===== src/Sessions/Manager/Removal.antt =====
-- server/src/sessions/mod.rs: what is left after several sessions are removed.
use sctl.Prelude.{
  ◌≡◌, refl, ap, subst, Bool, false, ◌||◌, inl, inr, List, [], ◌∷◌, Option, none, some, String,
  arith, if◌then◌else◌, Bool-cases, string_eq, eq_iff, str_eq,
}
use sctl.Prelude.Map.{lookup, remove, lookup-remove, Distinct, remove-Distinct}
use sctl.Sessions.Manager.{SessionEntry, Pool}
use sctl.Sessions.Manager.Sweep.{removed, ids_where, remove_each}

abbrev pub mem : String → List String → Bool
mem j [] = false
mem j (i ∷ ids) = str_eq i j || mem j ids

abbrev pub meets : (String → SessionEntry → Bool) → String → Option SessionEntry → Bool
meets p j none = false
meets p j (some e) = p j e

pub lookup-remove_each :
    (ids : List String) (m : Pool) (j : String)
    → lookup j (remove_each ids m).0 ≡ (if mem j ids then none else lookup j m)
unfolding remove_each
lookup-remove_each [] m j = refl
lookup-remove_each (i ∷ ids) m j =
    found (lookup i m) refl (lookup-remove_each ids m j) (lookup-remove_each ids (remove i m) j)
  where
    found :
        (o : Option SessionEntry)
        → lookup i m ≡ o
        → lookup j (remove_each ids m).0 ≡ (if mem j ids then none else lookup j m)
        → lookup j (remove_each ids (remove i m)).0
          ≡ (if mem j ids then none else lookup j (remove i m))
        → lookup j (removed i o (remove_each ids m) (remove_each ids (remove i m))).0
          ≡ (if str_eq i j || mem j ids then none else lookup j m)
    found none e same rest = ground (arith, same, eq_iff i j, e)
    found (some x) e same rest = ground (arith, rest, lookup-remove i j m, eq_iff i j)

pub mem-ids_where :
    (p : String → SessionEntry → Bool) (m : Pool) (j : String)
    → Distinct m
    → mem j (ids_where p m) ≡ meets p j (lookup j m)
unfolding ids_where lookup
mem-ids_where p [] j d = refl
mem-ids_where p ((i, e) ∷ m) j d = elim (Bool-cases (str_eq i j)) [
  | inl same ↦
      let i≡j : i ≡ j = (eq_iff i j).0 same in
      ground (
        arith,
        mem-ids_where p m j d.1,
        same,
        subst (λ k. lookup k m ≡ none) i≡j d.0,
        ap (λ k. p k e) i≡j,
      )
  | inr other ↦ ground (arith, mem-ids_where p m j d.1, other)
]

removed-Distinct :
    (i : String) (o : Option SessionEntry) (same rest : Pool × Pool)
    → Distinct same.0
    → Distinct rest.0
    → Distinct (removed i o same rest).0
removed-Distinct i none same rest d e = d
removed-Distinct i (some x) same rest d e = e

pub remove_each-Distinct :
    (ids : List String) (m : Pool) → Distinct m → Distinct (remove_each ids m).0
unfolding remove_each
remove_each-Distinct [] m d = d
remove_each-Distinct (i ∷ ids) m d =
    removed-Distinct i (lookup i m) (remove_each ids m) (remove_each ids (remove i m))
      (remove_each-Distinct ids m d) (remove_each-Distinct ids (remove i m) (remove-Distinct i m d))

pub empty_pool : (m : Pool) → ((j : String) → lookup j m ≡ none) → m ≡ []
unfolding lookup
empty_pool [] h = refl
empty_pool ((i, e) ∷ m) h = absurd (ground (arith, h i, eq_iff i i))

-- ===== src/Activity/Cache/Eviction.antt =====
-- server/src/activity.rs: the cache holds exactly the last results that were stored.
use sctl.Prelude.{
  ℕ, zero, suc, ◌-◌, ◌≡◌, refl, sym, ap, ap₂, ◌∙◌, subst, ◌≢◌, Bool, List, [], ◌∷◌, ◌++◌, map,
  Option, none, some, arith, leb, ◌==◌, if◌then◌else◌, length, drop, drop_all, pop_front, All,
  nat_eq, append_assoc, append-nil, Bool-cases, if-same, inl, inr, true, false,
}
use sctl.Prelude.Map.{lookup, remove, lookup-insert, lookup-remove}
use sctl.Prelude.Ring.{capacity, push_bounded, push_bounded-drop}
use sctl.Activity.Cache.{CachedExecResult, ExecResultsCache, new, evict, store, get}

abbrev pub store_all : ExecResultsCache → List CachedExecResult → ExecResultsCache
store_all c [] = c
store_all c (r ∷ rs) = store_all (store c r) rs

-- The first result with the id.
abbrev pub find : ℕ → List CachedExecResult → Option CachedExecResult
find k [] = none
find k (r ∷ rs) = if r.activity_id == k then some r else find k rs

-- No result of the list has the id of `r`.
abbrev pub Fresh : CachedExecResult → List CachedExecResult → Type 0
Fresh r = All (λ x. x.activity_id ≢ r.activity_id)

-- Each of the results has an id that no earlier one has, those of `h` included.
abbrev pub NewIds : List CachedExecResult → List CachedExecResult → Type 0
NewIds h [] = Unit {0}
NewIds h (r ∷ rs) = Fresh r h × NewIds (h ++ (r ∷ [])) rs

abbrev Distinct : List CachedExecResult → Type 0
Distinct [] = Unit {0}
Distinct (x ∷ xs) = Fresh x xs × Distinct xs

Distinct-append :
    (xs : List CachedExecResult) (r : CachedExecResult)
    → Distinct xs
    → Fresh r xs
    → Distinct (xs ++ (r ∷ []))
Distinct-append [] r d f = (tt, tt)
Distinct-append (x ∷ xs) r d f = (apart xs d.0, Distinct-append xs r d.1 f.1)
  where
    apart : (ys : List CachedExecResult) → Fresh x ys → Fresh x (ys ++ (r ∷ []))
    apart [] g = (λ e. f.0 (sym e), tt)
    apart (y ∷ ys) g = (g.0, apart ys g.1)

Fresh-drop :
    (n : ℕ) (r : CachedExecResult) (xs : List CachedExecResult) → Fresh r xs → Fresh r (drop n xs)
Fresh-drop zero r xs f = f
Fresh-drop (suc n) r [] f = tt
Fresh-drop (suc n) r (x ∷ xs) f = Fresh-drop n r xs f.1

find-Fresh :
    (r : CachedExecResult) (xs : List CachedExecResult) → Fresh r xs → find r.activity_id xs ≡ none
find-Fresh r [] f = refl
find-Fresh r (x ∷ xs) f = ground (arith, f.0, find-Fresh r xs f.1)

find-append :
    (k : ℕ) (xs : List CachedExecResult) (r : CachedExecResult)
    → find k (xs ++ (r ∷ []))
      ≡ elim (find k xs) [ none ↦ if r.activity_id == k then some r else none | some v ↦ some v ]
find-append k [] r = refl
find-append k (x ∷ xs) r = ground (arith, find-append k xs r)

-- The cache holds the results `w`, oldest first.
record Caches (m : ℕ) (c : ExecResultsCache) (w : List CachedExecResult) : Type 0 where
  size : c.max_entries ≡ m
  ids : c.order ≡ map (λ r. r.activity_id) w
  found : (k : ℕ) → lookup k c.results ≡ find k w
  distinct : Distinct w

evict_nil : (c : ExecResultsCache) → c.order ≡ [] → evict c ≡ c
unfolding evict
evict_nil c e = ground arith

evict_room : (c : ExecResultsCache) → leb c.max_entries (length c.order) ≡ false → evict c ≡ c
unfolding evict
evict_room c e = rw e

evict_full :
    (c : ExecResultsCache) (old : ℕ) (rest : List ℕ)
    → leb c.max_entries (length c.order) ≡ true
    → c.order ≡ old ∷ rest
    → evict c ≡ record c { order = rest; results = remove old c.results }
unfolding evict
evict_full c old rest t e = ground arith

length-map_id : (w : List CachedExecResult) → length (map (λ r. r.activity_id) w) ≡ length w
length-map_id [] = refl
length-map_id (x ∷ xs) = ap suc (length-map_id xs)

map_id-append :
    (w : List CachedExecResult) (r : CachedExecResult)
    → map (λ x. x.activity_id) (w ++ (r ∷ [])) ≡ map (λ x. x.activity_id) w ++ (r.activity_id ∷ [])
map_id-append [] r = refl
map_id-append (x ∷ xs) r = ap (◌∷◌ x.activity_id) (map_id-append xs r)

evict-Caches :
    (m : ℕ) (c : ExecResultsCache) (w : List CachedExecResult)
    → Caches m c w
    → Caches m (evict c) (if leb m (length w) then pop_front w else w)
evict-Caches m c [] v = rw (evict_nil c v.ids) (subst (Caches m c) (sym (if-same (leb m 0) [])) v)
evict-Caches m c (x ∷ xs) v = elim (Bool-cases (leb m (length (x ∷ xs)))) [
  | inl t ↦
      let t' : leb c.max_entries (length c.order) ≡ true =
        ap₂ leb v.size (ap length v.ids ∙ length-map_id (x ∷ xs)) ∙ t in
      rw (t, evict_full c x.activity_id _ t' v.ids)
        (record {
          size = v.size;
          ids = refl;
          found = λ k. ground (
            arith,
            lookup-remove x.activity_id k c.results,
            v.found k,
            find-Fresh x xs v.distinct.0,
          );
          distinct = v.distinct.1;
        })
  | inr f ↦
      let f' : leb c.max_entries (length c.order) ≡ false =
        ap₂ leb v.size (ap length v.ids ∙ length-map_id (x ∷ xs)) ∙ f in
      rw (f, evict_room c f') v
]

Fresh-made_room :
    (b : Bool) (r : CachedExecResult) (w : List CachedExecResult)
    → Fresh r w
    → Fresh r (if b then pop_front w else w)
Fresh-made_room true r [] f = f
Fresh-made_room true r (x ∷ xs) f = f.1
Fresh-made_room false r w f = f

store-Caches :
    (m : ℕ) (c : ExecResultsCache) (w : List CachedExecResult) (r : CachedExecResult)
    → Caches m c w
    → Fresh r w
    → Caches m (store c r) (push_bounded m w r)
unfolding store
store-Caches m c w r v f =
    let w' = if leb m (length w) then pop_front w else w in
    let f' : Fresh r w' = Fresh-made_room (leb m (length w)) r w f in
    let e = evict-Caches m c w v in
    record {
      size = e.size;
      ids = ap (λ o. o ++ (r.activity_id ∷ [])) e.ids ∙ sym (map_id-append w' r);
      found = λ k. ground (
        arith,
        lookup-insert r.activity_id k r (evict c).results,
        e.found k,
        find-append k w' r,
        find-Fresh r w' f',
      );
      distinct = Distinct-append w' r e.distinct f';
    }

store_all-Caches :
    (m : ℕ) (rs : List CachedExecResult) (c : ExecResultsCache) (h : List CachedExecResult)
    → Caches m c (drop (length h - capacity m) h)
    → NewIds h rs
    → Caches m (store_all c rs) (drop (length (h ++ rs) - capacity m) (h ++ rs))
store_all-Caches m [] c h v n = rw append-nil v
store_all-Caches m (r ∷ rs) c h v n =
    let w = drop (length h - capacity m) h in
    let s = store-Caches m c w r v (Fresh-drop (length h - capacity m) r h n.0) in
    let s' = subst (Caches m (store c r)) (push_bounded-drop m h w r refl) s in
    subst (λ k. Caches m (store_all c (r ∷ rs)) (drop (length k - capacity m) k))
      (append_assoc h (r ∷ []) rs) (store_all-Caches m rs (store c r) (h ++ (r ∷ [])) s' n.1)

new-Caches : (m : ℕ) → Caches m (new m) []
unfolding new lookup
new-Caches m = record { size = refl; ids = refl; found = λ k. refl; distinct = tt }

-- After storing any results with ids that are all different into a new cache, `get` finds a result
-- by its id exactly if it is among the last ones that the cache has room for.
pub get-store_all :
    (m : ℕ) (rs : List CachedExecResult) (id : ℕ)
    → NewIds [] rs
    → get (store_all (new m) rs) id ≡ find id (drop (length rs - capacity m) rs)
unfolding get
get-store_all m rs id n =
    let start =
      subst (Caches m (new m)) (sym (drop_all (0 - capacity m) [] (omega arith))) (new-Caches m) in
    (store_all-Caches m rs (new m) [] start n).found id

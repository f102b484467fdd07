-- ===== src/Transfer/Sweeping.antt =====
-- server/src/gawdxfer/manager.rs, `sweep_stale`: what a sweep removes.
use sctl.Prelude.{
  ℕ, ◌≡◌, refl, Bool, true, false, List, [], ◌∷◌, Option, none, some, String, str_eq, arith,
  if◌then◌else◌, string_eq, eq_iff,
}
use sctl.Prelude.Map.{lookup, remove, filter_keys, lookup-remove, Distinct}
use sctl.Transfer.Types.{Transfer, TransferManager}
use sctl.Transfer.Lifecycle.{remove_each, sweep_stale, is_stale}

-- Whether the id is in the list.
abbrev has : String → List String → Bool
has k [] = false
has k (id ∷ ids) = if str_eq id k then true else has k ids

lookup-remove_each :
    (ids : List String) (l : List (String × Transfer)) (k : String)
    → lookup k (remove_each ids l).0 ≡ (if has k ids then none else lookup k l)
unfolding remove_each
lookup-remove_each [] l k = refl
lookup-remove_each (id ∷ ids) l k =
    ground (arith, lookup-remove_each ids (remove id l) k, lookup-remove id k l)

-- Whether a value is there and meets the test.
abbrev meets : (Transfer → Bool) → Option Transfer → Bool
meets p none = false
meets p (some t) = p t

has-filter_keys :
    (p : Transfer → Bool) (l : List (String × Transfer)) (k : String)
    → Distinct l
    → has k (filter_keys p l) ≡ meets p (lookup k l)
unfolding filter_keys lookup
has-filter_keys p [] k d = refl
has-filter_keys p ((j, t) ∷ l) k d = ground (arith, has-filter_keys p l k d.1, d.0, eq_iff j k)

-- What a sweep leaves of an entry.
abbrev pub left : (Transfer → Bool) → Option Transfer → Option Transfer
left p none = none
left p (some t) = if p t then none else some t

-- A sweep of transfers under distinct ids removes exactly those that are stale, and leaves the others
-- as they are.
pub sweep_stale-lookup :
    (m : TransferManager) (now : ℕ) (id : String)
    → Distinct m.transfers
    → lookup id (sweep_stale m now).0.transfers ≡ left (is_stale m now) (lookup id m.transfers)
unfolding sweep_stale
sweep_stale-lookup m now id d = ground (
  arith,
  lookup-remove_each (filter_keys (is_stale m now) m.transfers) m.transfers id,
  has-filter_keys (is_stale m now) m.transfers id d,
)

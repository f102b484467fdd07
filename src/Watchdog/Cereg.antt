-- ===== src/Watchdog/Cereg.antt =====
-- server/src/lte_watchdog.rs: the registration status and its parser.
use sctl.Prelude.{
  ℕ, ◌^◌, Bool, true, false, List, Option, none, some, String, codes, contains_text, lines, split,
  trim, find, get_elem?, ◌==◌, if◌then◌else◌, parse_unsigned,
}

pub data RegistrationStatus : Type 0 where
  not_registered registered_home searching denied unknown registered_roam : RegistrationStatus

unfoldable pub is_registered : RegistrationStatus → Bool
is_registered registered_home = true
is_registered registered_roam = true
is_registered _ = false

unfoldable pub as_str : RegistrationStatus → String
as_str not_registered = "not_registered"
as_str registered_home = "home"
as_str searching = "searching"
as_str denied = "denied"
as_str unknown = "unknown"
as_str registered_roam = "roaming"

-- What the `stat` field means.
unfoldable pub status_of_stat : ℕ → RegistrationStatus
status_of_stat stat =
    if stat == 0
    then not_registered
    else if stat == 1
    then registered_home
    else if stat == 2
    then searching
    else if stat == 3
    then denied
    else if stat == 5
    then registered_roam
    else unknown

abbrev pub then_option {ℓ κ} : {A : Type ℓ} {B : Type κ} → Option A → (A → Option B) → Option B
then_option none f = none
then_option (some a) f = f a

-- Which of its error messages a failing parse gives is left out.
unfoldable pub parse_cereg : List ℕ → Option RegistrationStatus
unfolding status_of_stat
parse_cereg response = then_option (find (contains_text (codes "+CEREG:")) (lines response)) λ line.
    then_option (get_elem? (split b':' line) 1) λ part.
      then_option (get_elem? (split b',' (trim part)) 1) λ field.
        then_option (parse_unsigned (2 ^ 8) (trim field)) λ stat. some (status_of_stat stat)

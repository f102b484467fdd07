-- ===== src/Auth.antt =====
-- server/src/auth.rs: the check of the API key. Texts are lists of bytes.
-- The rest of the router is `next`, the outcome that lets the request through.
pub mod Bytes
pub mod Check
mod Tests
use Prim.Native.Nat.{bit_or, bit_xor}
use sctl.Prelude.{
  ℕ, zero, suc, ◌+◌, Bool, true, false, List, [], ◌∷◌, Option, none, some, ltb, ◌==◌, if◌then◌else◌,
  length, drop, codes, starts_with,
}

abbrev pub get_or : List ℕ → ℕ → ℕ → ℕ
get_or [] i d = d
get_or (x ∷ xs) zero d = x
get_or (x ∷ xs) (suc i) d = get_or xs i d

-- `provided[i]`, or 0xff past its end
provided_byte : List ℕ → ℕ → ℕ
provided_byte provided i = if ltb i (length provided) then get_or provided i 0 else 0xff

-- `for i in i..expected.len()`, with the rounds left as the first argument.
diff_from : ℕ → ℕ → List ℕ → List ℕ → ℕ → ℕ
diff_from zero i expected provided diff = diff
diff_from (suc n) i expected provided diff =
    diff_from n (i + 1) expected provided
      (bit_or diff (bit_xor (get_or expected i 0) (provided_byte provided i)))

pub constant_time_eq : List ℕ → List ℕ → Bool
unfolding diff_from provided_byte
constant_time_eq expected provided =
    let diff = if length expected == length provided then 0 else 1 in
    diff_from (length expected) 0 expected provided diff == 0

-- The outcomes of `require_api_key`, with the status code of each error.
pub data Outcome : Type 0 where
  server_config_error missing_token invalid_token next : Outcome

pub status_code : Outcome → Option ℕ
status_code server_config_error = some 500
status_code missing_token = some 401
status_code invalid_token = some 403
status_code next = none

abbrev pub bearer : List ℕ
bearer = codes "Bearer "

check_key : List ℕ → List ℕ → Outcome
unfolding constant_time_eq
check_key key provided = if constant_time_eq key provided then next else invalid_token

-- The key comes from the `ApiKey` extension, and the header is what `to_str().ok()` leaves.
pub require_api_key : Option (List ℕ) → Option (List ℕ) → Outcome
require_api_key none header = server_config_error
require_api_key (some key) none = missing_token
require_api_key (some key) (some h) =
    if starts_with bearer h then check_key key (drop 7 h) else missing_token

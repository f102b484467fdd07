-- ===== src/Auth/Tests.antt =====
-- server/src/auth.rs: requests, and instances of the laws.
use sctl.Prelude.{ℕ, ◌≡◌, ◌↔◌, refl, false, List, [], ◌∷◌, ◌++◌, none, some, arith, codes}
use sctl.Auth.{
  constant_time_eq, status_code, require_api_key, check_key, diff_from, provided_byte, next, bearer,
}
use sctl.Auth.Check.{require_api_key-next}

abbrev key : List ℕ
key = 107 ∷ 49 ∷ []

abbrev wrong : List ℕ
wrong = 107 ∷ 50 ∷ []

-- The middleware's answers: no key configured, no header, another scheme, a wrong key, the key.
requests :
    (status_code (require_api_key none (some (bearer ++ key))) ≡ some 500)
    × (status_code (require_api_key (some key) none) ≡ some 401)
    × (status_code (require_api_key (some key) (some (codes "Basic k1"))) ≡ some 401)
    × (status_code (require_api_key (some key) (some (bearer ++ wrong))) ≡ some 403)
    × (status_code (require_api_key (some key) (some (bearer ++ key))) ≡ none)
unfolding status_code require_api_key check_key constant_time_eq diff_from provided_byte
requests = (refl, refl, refl, refl, refl)

-- A prefix of the key does not pass, nor does a longer text.
lengths :
    (constant_time_eq key (107 ∷ []) ≡ false) × (constant_time_eq key (key ++ (0 ∷ [])) ≡ false)
unfolding constant_time_eq diff_from provided_byte
lengths = (refl, refl)

require_api_key-next_example :
    (require_api_key (some key) (some (bearer ++ key)) ≡ next) ↔ (bearer ++ key ≡ bearer ++ key)
require_api_key-next_example =
    require_api_key-next key (bearer ++ key) (ground arith) (ground arith)

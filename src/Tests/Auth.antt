-- ===== src/Tests/Auth.antt =====
-- The theorems on authentication, on one session.
use mirrortools.Prelude.{refl, true, none, [], ◌∷◌, codes}
use mirrortools.Auth.{AuthManager, Request, validate_request, session_of}
use mirrortools.Auth.Access.{IsAuthorised, validate_request-IsAuthorised}

abbrev pub guarded : AuthManager
guarded = record {
  cfg_enabled = true;
  password = codes "secret";
  sessions = (codes "t1", session_of (codes "t1") (codes "ann") 5) ∷ [];
}

abbrev pub by_bearer : Request
by_bearer = record { authorization = codes "Bearer secret"; basic_auth = none; cookie = none }

validate_request-IsAuthorised_example : IsAuthorised guarded 9 by_bearer (codes "api")
unfolding validate_request
validate_request-IsAuthorised_example =
    validate_request-IsAuthorised guarded 9 by_bearer (codes "api") refl refl

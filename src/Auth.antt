-- ===== src/Auth.antt =====
-- internal/daemon/auth.go: passwords, sessions and the check of a request. The random tokens, the
-- parsing of a request's headers and the configuration are parameters: what net/http finds in a
-- request is the record Request, and a method on a nil *AuthManager is one on `none`.
pub mod Sessions
pub mod Access
use mirrortools.Prelude.{
  ℕ, ◌+◌, Bool, true, false, ◌||◌, not, Option, none, some, List, [], ◌∷◌, if◌then◌else◌, ◌==◌,
  nat_eq, ltb, Text, codes, text_has_eq, text_eq, to_lower, trim_space, lookup, insert, remove,
}
use mirrortools.Job.{Time}

pub record Session : Type 0 where
  pub token : Text
  pub user : Text
  pub created_at : Time
  pub expires_at : Time

-- `cfg_enabled` is what the configuration says of authentication as a whole.
pub record AuthManager : Type 0 where
  pub cfg_enabled : Bool
  pub password : Text
  pub sessions : List (Text × Session)

-- Fourteen days, in nanoseconds.
abbrev pub session_duration : ℕ
session_duration = 1209600000000000

pub record Request : Type 0 where
  pub authorization : Text
  pub basic_auth : Option (Text × Text)
  pub cookie : Option Text

-- AuthManager.Enabled
abbrev pub enabled : Option AuthManager → Bool
enabled none = false
enabled (some a) = a.cfg_enabled

-- AuthManager.PasswordEnabled
abbrev pub password_enabled : Option AuthManager → Bool
password_enabled none = false
password_enabled (some a) = not (a.password == [])

-- AuthManager.CheckPassword, on a manager that is not nil.
unfoldable pub check_password : AuthManager → Text → Bool
check_password a pass = if a.password == [] then false else pass == a.password

abbrev pub session_of : Text → Text → Time → Session
session_of token user now = record {
  token = token;
  user = user;
  created_at = now;
  expires_at = now + session_duration;
}

-- CreateSession, with the token that was drawn.
unfoldable pub create_session : Text → Text → Time → AuthManager → AuthManager
unfolding insert
create_session token user now a = record a {
  sessions = insert token (session_of token user now) a.sessions;
}

-- InvalidateSession
unfoldable pub invalidate_session : Text → AuthManager → AuthManager
unfolding remove
invalidate_session token a = record a { sessions = remove token a.sessions }

-- strings.SplitN(s, " ", 2), where there is a space.
unfoldable pub cut_space : Text → Option (Text × Text)
cut_space [] = none
cut_space (c ∷ s) =
    let rest = cut_space s in
    if nat_eq c b' '
    then some ([], s)
    else elim rest [ none ↦ none | some parts ↦ some (c ∷ parts.0, parts.1) ]

-- The user of a session that is there and not over.
unfoldable pub live_user : Time → Option Session → Option Text
live_user now none = none
live_user now (some s) = if ltb now s.expires_at then some s.user else none

unfoldable pub bearer_user : AuthManager → Time → Text → Option Text
unfolding check_password live_user lookup
bearer_user a now token =
    if check_password a token then some (codes "api") else live_user now (lookup token a.sessions)

unfoldable pub basic_user : AuthManager → Option (Text × Text) → Option Text
unfolding check_password
basic_user a none = none
basic_user a (some up) =
    if check_password a up.1 then some (if up.0 == [] then codes "api" else up.0) else none

-- The check of the Authorization header.
unfoldable pub scheme_user : AuthManager → Time → Request → Option (Text × Text) → Option Text
unfolding bearer_user basic_user to_lower trim_space
scheme_user a now r none = none
scheme_user a now r (some parts) =
    if to_lower parts.0 == codes "bearer"
    then bearer_user a now (trim_space parts.1)
    else if to_lower parts.0 == codes "basic"
    then basic_user a r.basic_auth
    else none

-- The check of the session cookie; a session that is over is deleted.
unfoldable pub session_user : AuthManager → Time → Text → Option Session → Option Text × AuthManager
unfolding invalidate_session
session_user a now token none = (none, a)
session_user a now token (some s) =
    if ltb now s.expires_at then (some s.user, a) else (none, invalidate_session token a)

unfoldable pub cookie_user : AuthManager → Time → Option Text → Option Text × AuthManager
unfolding session_user lookup
cookie_user a now none = (none, a)
cookie_user a now (some token) =
    if token == [] then (none, a) else session_user a now token (lookup token a.sessions)

abbrev pub header_or_cookie :
    Option Text → Option Text × AuthManager → AuthManager → Option Text × AuthManager
header_or_cookie none by_cookie a = by_cookie
header_or_cookie (some user) by_cookie a = (some user, a)

-- ValidateRequest on a manager that is not nil: the user, or none where the request is refused.
unfoldable pub validate_request : Time → Request → AuthManager → Option Text × AuthManager
unfolding scheme_user cookie_user cut_space
validate_request now r a =
    if a.cfg_enabled
    then header_or_cookie (scheme_user a now r (cut_space r.authorization))
        (cookie_user a now r.cookie) a
    else (some (codes "anonymous"), a)

-- ValidateRequest
abbrev pub validate_any : Time → Request → Option AuthManager → Option Text
validate_any now r none = some (codes "anonymous")
validate_any now r (some a) = (validate_request now r a).0

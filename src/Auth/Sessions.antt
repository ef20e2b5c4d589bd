-- ===== src/Auth/Sessions.antt =====
-- How long a session lets a client in.
use mirrortools.Prelude.{
  ◌+◌, ◌≡◌, ◌≢◌, true, none, some, [], if◌then◌else◌, ltb, arith, Text, text_has_eq, text_eq_iff,
  lookup-insert, lookup-remove, eq_refl,
}
use mirrortools.Job.{Time}
use mirrortools.Auth.{
  AuthManager, Request, session_duration, session_of, create_session, invalidate_session,
  validate_request, cookie_user, session_user,
}

-- A request with a session cookie and no Authorization header.
abbrev pub with_cookie : Text → Request
with_cookie token = record { authorization = []; basic_auth = none; cookie = some token }

-- Where authentication is configured, a session's cookie, its token not empty, lets its user in
-- for fourteen days from its creation and nobody afterwards.
pub validate_request-create_session :
    (a : AuthManager) (token user : Text) (now later : Time)
    → a.cfg_enabled ≡ true
    → token ≢ []
    → (validate_request later (with_cookie token) (create_session token user now a)).0
      ≡ (if ltb later (now + session_duration) then some user else none)
unfolding validate_request create_session cookie_user session_user
validate_request-create_session a token user now later on real = ground (
  arith,
  on,
  real,
  text_eq_iff token [],
  lookup-insert token token (session_of token user now) a.sessions,
  eq_refl token,
)

-- Where authentication is configured, the cookie of a session that was invalidated lets nobody in.
pub validate_request-invalidate_session :
    (a : AuthManager) (token : Text) (later : Time)
    → a.cfg_enabled ≡ true
    → (validate_request later (with_cookie token) (invalidate_session token a)).0 ≡ none
unfolding validate_request invalidate_session cookie_user session_user
validate_request-invalidate_session a token later on =
    ground (arith, on, lookup-remove token token a.sessions, eq_refl token)

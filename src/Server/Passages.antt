-- ===== src/Server/Passages.antt =====
-- Who passes WithAuth: what the access check and the login come to together.
use mathlib.Core.Path.{subst}
use mirrortools.Prelude.{
  ◌+◌, ◌≡◌, ◌≢◌, refl, sym, ap, ◌∙◌, ◌⊎◌, inl, inr, Bool, true, false, Option, none, some, [],
  if◌then◌else◌, ◌==◌, arith, Text, codes, text_has_eq, text_eq_iff, ltb,
}
use mirrortools.Job.{Time}
use mirrortools.Auth.{
  AuthManager, Request, enabled, check_password, create_session, invalidate_session,
  validate_request, session_duration,
}
use mirrortools.Auth.Access.{IsAuthorised, validate_request-IsAuthorised}
use mirrortools.Auth.Sessions.{
  with_cookie, validate_request-create_session, validate_request-invalidate_session,
}
use mirrortools.Server.{Server, Reply}
use mirrortools.Server.Sessions.{
  WebRequest, Passage, serve, reply_with, is_public, turned_away, passage, guarded, with_auth,
  handle_login_submit, handle_logout, logged_out, drop_session, login_to, logged_in,
}

-- The server lets the request pass because it is entitled to.
abbrev pub IsEntitled : Server → Time → WebRequest → Type 0
IsEntitled s now r =
    (a : AuthManager) × (user : Text) × (s.auth ≡ some a) × IsAuthorised a now r.credentials user

abbrev Entitles : Server → Time → WebRequest → Passage → Type 0
Entitles s now r serve = IsEntitled s now r
Entitles s now r (reply_with reply) = reply ≡ turned_away r

passage-Entitles :
    (s : Server) (now : Time) (r : WebRequest) (a : AuthManager) (o : Option Text)
    → s.auth ≡ some a
    → a.cfg_enabled ≡ true
    → (validate_request now r.credentials a).0 ≡ o
    → Entitles s now r (passage r o)
unfolding passage
passage-Entitles s now r a none e on v = refl
passage-Entitles s now r a (some user) e on v =
    (a, user, e, validate_request-IsAuthorised a now r.credentials user on v)

guarded-Entitles :
    (s : Server) (now : Time) (r : WebRequest) (o : Option AuthManager)
    → s.auth ≡ o
    → enabled o ≡ true
    → Entitles s now r (guarded now r o s).0
unfolding guarded
guarded-Entitles s now r none e on = cc
guarded-Entitles s now r (some a) e on = passage-Entitles s now r a _ e on refl

with_auth-guarded :
    (s : Server) (now : Time) (r : WebRequest)
    → enabled s.auth ≡ true
    → is_public r.path ≡ false
    → with_auth now r s ≡ guarded now r s.auth s
unfolding with_auth
with_auth-guarded s now r on closed = rw on (rw closed refl)

decided :
    (s : Server) (now : Time) (r : WebRequest) (x : Passage)
    → Entitles s now r x
    → (x ≡ reply_with (turned_away r)) ⊎ ((x ≡ serve) × IsEntitled s now r)
decided s now r serve h = inr (refl, h)
decided s now r (reply_with reply) h = inl (ap reply_with h)

-- Where authentication is configured, a request to a path that is not public is turned away, or it
-- is served and carries the password, which is not empty, in its Authorization header, or else the
-- token, in that header or in its cookie, of a session that is not over.
pub with_auth-IsEntitled :
    (s : Server) (now : Time) (r : WebRequest)
    → enabled s.auth ≡ true
    → is_public r.path ≡ false
    → ((with_auth now r s).0 ≡ reply_with (turned_away r))
      ⊎ (((with_auth now r s).0 ≡ serve) × IsEntitled s now r)
with_auth-IsEntitled s now r on closed = decided s now r (with_auth now r s).0 (
    subst (λ (x : Passage × Server). Entitles s now r x.0)
      (sym (with_auth-guarded s now r on closed)) (guarded-Entitles s now r s.auth refl on))

-- What is sent with a session's cookie alone.
abbrev pub CarriesCookie : WebRequest → Text → Type 0
CarriesCookie r token = (r.credentials ≡ with_cookie token) × (is_public r.path ≡ false)

passed :
    (s : Server) (now : Time) (r : WebRequest) (a : AuthManager)
    → s.auth ≡ some a
    → a.cfg_enabled ≡ true
    → is_public r.path ≡ false
    → (with_auth now r s).0 ≡ passage r (validate_request now r.credentials a).0
passed s now r a e on closed =
    ap (λ (x : Passage × Server). x.0) (with_auth-guarded s now r (ap enabled e ∙ on) closed)
    ∙ ap (λ (o : Option AuthManager). (guarded now r o s).0) e
    ∙ (unfold guarded in refl)

passage_if :
    (r : WebRequest) (b : Bool) (user : Text)
    → passage r (if b then some user else none) ≡ (if b then serve else reply_with (turned_away r))
unfolding passage
passage_if r true user = refl
passage_if r false user = refl

login_right :
    (now : Time) (form : WebRequest) (token : Text) (s : Server) (a : AuthManager)
    → a.password ≢ []
    → login_to now form a.password token s (some a) ≡ (
      logged_in form,
      some token,
      record s { auth = some (create_session token (codes "admin") now a) },
    )
unfolding login_to check_password
login_right now form token s a p =
    let full : (a.password == []) ≡ false = ground (arith, p, text_eq_iff a.password []) in
    let right : (a.password == a.password) ≡ true = (text_eq_iff a.password a.password).1 refl in
    rw full (rw right refl)

session_passes :
    (s : Server) (a : AuthManager) (now later : Time) (r : WebRequest) (token user : Text)
    → a.cfg_enabled ≡ true
    → token ≢ []
    → CarriesCookie r token
    → (with_auth later r (record s { auth = some (create_session token user now a) })).0
      ≡ (if ltb later (now + session_duration) then serve else reply_with (turned_away r))
session_passes s a now later r token user on t c =
    let held = create_session token user now a in
    passed (record s { auth = some held }) later r held refl (unfold create_session in on) c.1
    ∙ ap (λ (q : Request). passage r (validate_request later q held).0) c.0
    ∙ ap (passage r) (validate_request-create_session a token user now later on t)
    ∙ passage_if r (ltb later (now + session_duration)) user

-- Where authentication and a password are configured, a login with the password sets a cookie, its
-- token not empty, and a request with that cookie, to a path that is not public, is served for
-- fourteen days from the login and turned away afterwards.
pub with_auth-handle_login_submit :
    (s : Server) (a : AuthManager) (now later : Time) (form r : WebRequest) (token : Text)
    → s.auth ≡ some a
    → a.cfg_enabled ≡ true
    → a.password ≢ []
    → token ≢ []
    → CarriesCookie r token
    → ((handle_login_submit now form a.password token s).1 ≡ some token)
      × ((with_auth later r (handle_login_submit now form a.password token s).2).0
          ≡ (if ltb later (now + session_duration) then serve else reply_with (turned_away r)))
unfolding handle_login_submit
with_auth-handle_login_submit s a now later form r token e on p t c =
    let here = ap (login_to now form a.password token s) e ∙ login_right now form token s a p in
    (
      ap (λ (x : Reply × Option Text × Server). x.1) here,
      ap (λ (x : Reply × Option Text × Server). (with_auth later r x.2).0) here
          ∙ session_passes s a now later r token (codes "admin") on t c,
    )

logged_out-cookie :
    (out : WebRequest) (a : AuthManager) (token : Text) (o : Option AuthManager)
    → o ≡ some a
    → token ≢ []
    → out.credentials.cookie ≡ some token
    → logged_out o out ≡ some (invalidate_session token a)
unfolding logged_out drop_session
logged_out-cookie out a token o e t c =
    ap (λ (x : Option AuthManager). logged_out x out) e
    ∙ ap (λ (k : Option Text). some (drop_session k a)) c
    ∙ ground (arith, t, text_eq_iff token [])

-- Where authentication is configured, after a logout with a session's cookie, its token not empty,
-- a request with that cookie to a path that is not public is turned away.
pub with_auth-handle_logout :
    (s : Server) (a : AuthManager) (later : Time) (out r : WebRequest) (token : Text)
    → s.auth ≡ some a
    → a.cfg_enabled ≡ true
    → token ≢ []
    → out.credentials.cookie ≡ some token
    → CarriesCookie r token
    → (with_auth later r (handle_logout out s).1).0 ≡ reply_with (turned_away r)
unfolding handle_logout
with_auth-handle_logout s a later out r token e on t o c =
    let left = invalidate_session token a in
    passed (record s { auth = logged_out s.auth out }) later r left
      (logged_out-cookie out a token s.auth e t o) (unfold invalidate_session in on) c.1
    ∙ ap (λ (q : Request). passage r (validate_request later q left).0) c.0
    ∙ ap (passage r) (validate_request-invalidate_session a token later on)
    ∙ (unfold passage in refl)

-- ===== src/Server/Sessions.antt =====
-- The access check, the login and the configuration of server.go.
use mirrortools.Prelude.{
  Bool, true, false, ◌||◌, not, Option, none, some, [], if◌then◌else◌, ◌==◌, Text, codes,
  text_has_eq, has_prefix, has_infix,
}
use mirrortools.Job.{Time}
use mirrortools.Config.{
  Env, AuthConfig, Config, Result, ok, err, password_value, client_secret_value, auth_enabled,
  Decoded,
}
use mirrortools.Config.Load.{load}
use mirrortools.Auth.{
  AuthManager, Request, enabled, password_enabled, check_password, create_session,
  invalidate_session, validate_request,
}
use mirrortools.Server.{
  Server, Reply, json, see_other, message, status, me, config_of, broadcast_event,
}

-- NewAuthManager: none where it fails. The endpoints of OAuth are not modelled.
unfoldable pub new_auth_manager : Env → AuthConfig → Option AuthManager
unfolding password_value client_secret_value auth_enabled
new_auth_manager env cfg = elim (password_value env cfg) [
  | none ↦ none
  | some pw ↦ elim (client_secret_value env cfg.oauth) [
    | none ↦ none
    | some secret ↦ some (record { cfg_enabled = auth_enabled cfg; password = pw; sessions = [] })
  ]
]

-- What a request carries, its path and its headers Accept and Content-Type with it.
pub record WebRequest : Type 0 where
  pub path : Text
  pub accept : Text
  pub content_type : Text
  pub credentials : Request

-- What WithAuth does with a request: it is passed on, or answered.
pub data Passage : Type 0 where
  serve : Passage
  reply_with : Reply → Passage

unfoldable pub is_public : Text → Bool
is_public path =
    path == codes "/auth/login"
    || path == codes "/auth/callback"
    || path == codes "/auth/oauth/start"

wants_json : WebRequest → Bool
unfolding has_infix
wants_json r = has_infix r.accept (codes "application/json")

unfoldable pub turned_away : WebRequest → Reply
unfolding wants_json has_prefix
turned_away r =
    if has_prefix r.path (codes "/api/") || wants_json r
    then json 401 (message (codes "authentication required"))
    else see_other (codes "/auth/login")

unfoldable pub passage : WebRequest → Option Text → Passage
unfolding turned_away
passage r none = reply_with (turned_away r)
passage r (some user) = serve

unfoldable pub guarded : Time → WebRequest → Option AuthManager → Server → Passage × Server
unfolding passage validate_request
guarded now r none s = (serve, s)
guarded now r (some a) s =
    let (user, a') = validate_request now r.credentials a in
    (passage r user, record s { auth = some a' })

-- WithAuth
unfoldable pub with_auth : Time → WebRequest → Server → Passage × Server
unfolding guarded is_public
with_auth now r s =
    if not (enabled s.auth)
    then (serve, s)
    else if is_public r.path
    then (serve, s)
    else guarded now r s.auth s

unfoldable pub logged_in : WebRequest → Reply
unfolding wants_json
logged_in r = if wants_json r then json 200 (status (codes "ok")) else see_other (codes "/")

unfoldable pub wrong_password : WebRequest → Reply
unfolding wants_json
wrong_password r =
    if wants_json r
    then json 401 (message (codes "invalid password"))
    else see_other (codes "/auth/login?error=Invalid+password")

unfoldable pub login_to :
    Time → WebRequest → Text → Text → Server → Option AuthManager → Reply × Option Text × Server
unfolding logged_in wrong_password check_password create_session
login_to now r password token s none =
    (json 400 (message (codes "password authentication is not enabled")), none, s)
login_to now r password token s (some a) =
    if a.password == []
    then (json 400 (message (codes "password authentication is not enabled")), none, s)
    else if not (check_password a password)
    then (wrong_password r, none, s)
    else (
      logged_in r,
      some token,
      record s { auth = some (create_session token (codes "admin") now a) },
    )

-- handleLoginSubmit, with the password of the body and the token that is drawn; the token is the
-- cookie's, if one is set.
unfoldable pub handle_login_submit :
    Time → WebRequest → Text → Text → Server → Reply × Option Text × Server
unfolding login_to
handle_login_submit now r password token s = login_to now r password token s s.auth

unfoldable pub drop_session : Option Text → AuthManager → AuthManager
unfolding invalidate_session
drop_session none a = a
drop_session (some token) a = if token == [] then a else invalidate_session token a

unfoldable pub logged_out : Option AuthManager → WebRequest → Option AuthManager
unfolding drop_session
logged_out none r = none
logged_out (some a) r = some (drop_session r.credentials.cookie a)

-- handleLogout
unfoldable pub handle_logout : WebRequest → Server → Reply × Server
unfolding logged_out wants_json
handle_logout r s = (
  (if wants_json r
      then json 200 (status (codes "logged_out"))
      else see_other (codes "/auth/login")),
  record s { auth = logged_out s.auth r },
)

is_user : Option Text → Bool
is_user none = false
is_user (some u) = true

user_name : Option Text → Text
user_name none = []
user_name (some u) = u

-- handleAuthMe; OAuth and the provider's name are left out.
unfoldable pub handle_auth_me : Time → WebRequest → Server → Reply × Server
unfolding is_user user_name validate_request
handle_auth_me now r s = elim s.auth [
  | none ↦ (json 200 (me false true (codes "anonymous") false), s)
  | some a ↦
      let (user, a') = validate_request now r.credentials a in
      (
        json 200
            (me (enabled (some a)) (is_user user) (user_name user) (password_enabled (some a))),
        record s { auth = some a' },
      )
]

-- handleGetConfig
unfoldable pub handle_get_config : Server → Reply
handle_get_config s = json 200 (
    config_of s.config_path
      (if not (s.config_path == []) then elim s.config_file [ none ↦ [] | some raw ↦ raw ] else [])
      s.cfg)

-- What becomes of the files while a configuration is saved. os.WriteFile truncates the file before it
-- writes: if it fails, the file holds what it held, nothing, or a part of the text.
pub data SaveFault : Type 0 where
  all_well create_temp_failed write_temp_failed mkdir_failed : SaveFault
  write_failed : Option Text → SaveFault

unfoldable pub renewed : Option AuthManager → Option AuthManager → Option AuthManager
renewed old none = old
renewed old (some new) = some new

unfoldable pub store_config : Env → Text → SaveFault → Config → Server → Reply × Server
unfolding renewed new_auth_manager broadcast_event
store_config env raw mkdir_failed cfg s = (json 500 (message (codes "mkdir")), s)
store_config env raw (write_failed left) cfg s =
    (json 500 (message (codes "write")), record s { config_file = left })
store_config env raw fault cfg s = (
  json 200 (status (codes "saved")),
  broadcast_event (codes "config:updated") (record s {
    cfg = cfg;
    config_file = some raw;
    auth = renewed s.auth (new_auth_manager env cfg.daemon.auth);
  }),
)

unfoldable pub saved_config : Env → Text → SaveFault → Result Config → Server → Reply × Server
unfolding store_config
saved_config env raw fault (err e) s = (json 400 (message (codes "invalid configuration")), s)
saved_config env raw fault (ok cfg) s =
    if s.config_path == []
    then (json 400 (message (codes "no configuration path configured")), s)
    else store_config env raw fault cfg s

-- A file, by its path, with what it decodes to.
abbrev pub with_file : Text → Decoded → Env → Env
with_file path d env = record env { decode_file = λ p. if p == path then d else env.decode_file p }

-- handleSaveConfig, with what toml makes of a text, the name of the temporary file that holds the
-- text of the body, and that text; none where the body cannot be decoded.
unfoldable pub handle_save_config :
    Env → (Text → Decoded) → Text → SaveFault → Option Text → Server → Reply × Server
unfolding saved_config load
handle_save_config env decode tmp fault none s = (json 400 (message (codes "invalid JSON")), s)
handle_save_config env decode tmp create_temp_failed (some raw) s =
    (json 500 (message (codes "temp")), s)
handle_save_config env decode tmp write_temp_failed (some raw) s =
    (json 500 (message (codes "temp")), s)
handle_save_config env decode tmp fault (some raw) s =
    saved_config env raw fault (load (with_file tmp (decode raw) env) tmp) s

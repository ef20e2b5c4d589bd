-- ===== src/Config/Load.antt =====
-- Load and the functions that read the sections of the configuration file.
use mirrortools.Prelude.{
  ℕ, zero, suc, Bool, true, false, ◌||◌, Option, none, some, List, [], ◌∷◌, if◌then◌else◌, ◌==◌,
  nat_has_eq, Text, codes, text_has_eq, text_lt, trim_space, split, insert, ℤ, pos, negsuc,
  format_int, scan_int, sort_by, by_key, contains,
}
use mirrortools.Config.{
  Value, Values, Entries, str, boolean, integer, float, array, table, end, item, nil, entry,
  Decoded, missing, broken, decoded, Env, decoding, bad_value, unknown_setting, no_such_method,
  want_string, want_table, want_positive, Result, ok, err, ◌>>=◌, OauthConfig, AuthConfig,
  DaemonConfig, MethodConfig, Config, expand_home, default_config,
}

unfoldable pub entry_list : Entries → List (Text × Value)
entry_list nil = []
entry_list (entry k v rest) = (k, v) ∷ entry_list rest

-- The entries in the order of sortedKeys.
unfoldable pub sorted_entries : Entries → List (Text × Value)
unfolding entry_list sort_by
sorted_entries m = sort_by (by_key (λ e. e.0) text_lt) (entry_list m)

-- scalar
unfoldable pub scalar : Value → Result Text
unfolding format_int
scalar (str s) = ok s
scalar (boolean true) = ok (codes "true")
scalar (boolean false) = ok (codes "false")
scalar (integer n) = ok (format_int n)
scalar (float s) = ok s
scalar _ = err bad_value

-- fmt.Sprint
sprint : Env → Value → Text
unfolding scalar
sprint env v = elim (scalar v) [ ok s ↦ s | err e ↦ env.sprint v ]

sprint_all : Env → Values → List Text
unfolding sprint
sprint_all env end = []
sprint_all env (item v rest) = sprint env v ∷ sprint_all env rest

trimmed_parts : List Text → List Text
unfolding trim_space
trimmed_parts [] = []
trimmed_parts (p ∷ parts) =
    let rest = trimmed_parts parts in if trim_space p == [] then rest else trim_space p ∷ rest

-- stringList
unfoldable pub string_list : Env → Value → List Text
unfolding sprint_all trimmed_parts split
string_list env (array vs) = sprint_all env vs
string_list env (str s) = trimmed_parts (split b',' s)
string_list env _ = []

abbrev pub either : Text → Text → Text → Bool
either k a b = k == a || k == b

-- The inner switch of parseOAuthConfig.
oauth_scalar : Env → Text → Text → OauthConfig → Result OauthConfig
unfolding expand_home
oauth_scalar env k v o =
    if k == codes "provider"
    then ok (record o { provider = v })
    else if k == codes "issuer"
    then ok (record o { issuer = v })
    else if either k (codes "client-id") (codes "client_id")
    then ok (record o { client_id = v })
    else if either k (codes "client-secret") (codes "client_secret")
    then ok (record o { client_secret = v })
    else if either k (codes "client-secret-file") (codes "client_secret_file")
    then ok (record o { client_secret_file = expand_home env v })
    else if either k (codes "auth-url") (codes "auth_url")
    then ok (record o { auth_url = v })
    else if either k (codes "token-url") (codes "token_url")
    then ok (record o { token_url = v })
    else if either k (codes "userinfo-url") (codes "userinfo_url")
    then ok (record o { user_info_url = v })
    else if either k (codes "redirect-url") (codes "redirect_url")
    then ok (record o { redirect_url = v })
    else err unknown_setting

oauth_setting : Env → Text → Value → OauthConfig → Result OauthConfig
unfolding oauth_scalar string_list scalar
oauth_setting env k v o =
    if k == codes "scopes"
    then ok (record o { scopes = string_list env v })
    else if either k (codes "allowed-users") (codes "allowed_users")
    then ok (record o { allowed_users = string_list env v })
    else scalar v >>= λ s. oauth_scalar env k s o

-- A loop over the entries of a section, which ends at the first error.
unfoldable pub each_setting {ℓ} :
    {A : Type ℓ} → (Text → Value → A → Result A) → List (Text × Value) → A → Result A
each_setting set [] a = ok a
each_setting set ((k, v) ∷ rest) a = set k v a >>= λ b. each_setting set rest b

-- parseOAuthConfig
unfoldable pub parse_oauth_config : Env → Entries → OauthConfig → Result OauthConfig
unfolding each_setting oauth_setting sorted_entries
parse_oauth_config env m o = each_setting (oauth_setting env) (sorted_entries m) o

unfoldable pub sub_table : Value → Result Entries
sub_table (table m) = ok m
sub_table _ = err want_table

auth_text : Env → Text → Text → AuthConfig → Result AuthConfig
unfolding expand_home
auth_text env k s a =
    if k == codes "password"
    then ok (record a { password = s })
    else if either k (codes "password-file") (codes "password_file")
    then ok (record a { password_file = expand_home env s })
    else err unknown_setting

auth_oauth : Env → Value → AuthConfig → Result AuthConfig
unfolding sub_table parse_oauth_config
auth_oauth env v a = do
  m ← sub_table v
  o ← parse_oauth_config env m a.oauth
  ok (record a { oauth = o })

auth_setting : Env → Text → Value → AuthConfig → Result AuthConfig
unfolding auth_text auth_oauth scalar
auth_setting env k v a =
    if k == codes "oauth" then auth_oauth env v a else scalar v >>= λ s. auth_text env k s a

-- parseAuthConfig
unfoldable pub parse_auth_config : Env → Entries → AuthConfig → Result AuthConfig
unfolding each_setting auth_setting sorted_entries
parse_auth_config env m a = each_setting (auth_setting env) (sorted_entries m) a

-- The number that fmt.Sscanf reads, if it is one at least.
unfoldable pub positive : Option ℤ → Result ℕ
positive none = err want_positive
positive (some (negsuc n)) = err want_positive
positive (some (pos zero)) = err want_positive
positive (some (pos (suc n))) = ok (suc n)

unfoldable pub daemon_text : Env → Text → Text → DaemonConfig → Result DaemonConfig
unfolding expand_home positive scan_int
daemon_text env k s d =
    if k == codes "socket"
    then ok (record d { socket = expand_home env s })
    else if k == codes "http"
    then ok (record d { http = s })
    else if k == codes "concurrency"
    then (positive (scan_int s) >>= λ c. ok (record d { concurrency = c }))
    else if k == codes "db"
    then ok (record d { db = expand_home env s })
    else if k == codes "max_retries"
    then (positive (scan_int s) >>= λ r. ok (record d { max_retries = r }))
    else err unknown_setting

unfoldable pub daemon_auth : Env → Value → DaemonConfig → Result DaemonConfig
unfolding sub_table parse_auth_config
daemon_auth env v d = do
  m ← sub_table v
  a ← parse_auth_config env m d.auth
  ok (record d { auth = a })

unfoldable pub daemon_setting : Env → Text → Value → DaemonConfig → Result DaemonConfig
unfolding daemon_auth daemon_text scalar
daemon_setting env k v d =
    if k == codes "auth" then daemon_auth env v d else scalar v >>= λ s. daemon_text env k s d

-- parseDaemonConfig
unfoldable pub parse_daemon_config : Env → Entries → DaemonConfig → Result DaemonConfig
unfolding each_setting daemon_setting sorted_entries
parse_daemon_config env m d = each_setting (daemon_setting env) (sorted_entries m) d

unfoldable pub method_setting : Env → Text → Value → MethodConfig → Result MethodConfig
unfolding scalar expand_home insert
method_setting env k v mc = scalar v >>= λ s.
    if k == codes "destdir"
    then ok (record mc { dest_dir = expand_home env s })
    else ok (record mc { flags = insert k (expand_home env s) mc.flags })

abbrev pub no_settings : MethodConfig
no_settings = record { dest_dir = []; flags = [] }

unfoldable pub load_daemon : Env → Entries → Config → Result Config
unfolding parse_daemon_config
load_daemon env m cfg = do d ← parse_daemon_config env m cfg.daemon; ok (record cfg { daemon = d })

unfoldable pub load_method : Env → Text → Entries → Config → Result Config
unfolding each_setting method_setting sorted_entries insert
load_method env key m cfg = do
  mc ← each_setting (method_setting env) (sorted_entries m) no_settings
  ok (record cfg { methods = insert key mc cfg.methods })

-- A [section] of the file.
unfoldable pub load_table : Env → Text → Entries → Config → Result Config
unfolding load_daemon load_method contains
load_table env key m cfg =
    if key == codes "daemon"
    then load_daemon env m cfg
    else if contains env.methods key
    then load_method env key m cfg
    else err no_such_method

unfoldable pub load_text : Env → Value → Config → Result Config
unfolding expand_home
load_text env (str s) cfg = ok (record cfg { dest_dir = expand_home env s })
load_text env _ cfg = err want_string

-- A setting outside the sections.
unfoldable pub load_plain : Env → Text → Value → Config → Result Config
unfolding load_text
load_plain env key v cfg =
    if key == codes "destdir" then load_text env v cfg else err unknown_setting

-- The loop of Load.
unfoldable pub load_setting : Env → Text → Value → Config → Result Config
unfolding load_table load_plain
load_setting env key (table m) cfg = load_table env key m cfg
load_setting env key v cfg = load_plain env key v cfg

unfoldable pub load_decoded : Env → Decoded → Result Config
unfolding each_setting load_setting sorted_entries default_config
load_decoded env missing = ok (default_config env)
load_decoded env broken = err decoding
load_decoded env (decoded raw) =
    each_setting (load_setting env) (sorted_entries raw) (default_config env)

-- Load
unfoldable pub load : Env → Text → Result Config
unfolding load_decoded default_config
load env path =
    if path == [] then ok (default_config env) else load_decoded env (env.decode_file path)

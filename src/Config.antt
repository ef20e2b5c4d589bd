-- ===== src/Config.antt =====
-- internal/config/config.go: the configuration file and its defaults. The environment, the files and
-- the decoding of TOML are parameters.
pub mod Load
pub mod Valid
pub mod Known
use mirrortools.Prelude.{
  ℕ, zero, suc, Bool, true, false, ◌&&◌, ◌||◌, not, Option, none, some, List, [], ◌∷◌, map,
  if◌then◌else◌, ◌==◌, nat_has_eq, Text, codes, text_has_eq, text_lt, has_prefix, drop, trim_space,
  split, insert, lookup, ℤ, pos, negsuc, format_int, scan_int, sort_by, by_key, contains,
}
use mirrortools.FilePaths.{join}

-- A value that toml.DecodeFile gives. A float carries what fmt.Sprint prints of it; a date and an
-- array of tables are `other`.
mutual
  pub data Value : Type 0 where
    str : Text → Value
    boolean : Bool → Value
    integer : ℤ → Value
    float : Text → Value
    other : Value
    array : Values → Value
    table : Entries → Value

  pub data Values : Type 0 where
    end : Values
    item : Value → Values → Values

  pub data Entries : Type 0 where
    nil : Entries
    entry : Text → Value → Entries → Entries

pub data Decoded : Type 0 where
  missing broken : Decoded
  decoded : Entries → Decoded

-- What the configuration reads of the system: variables, the home directory if it is known, the
-- directory for temporary files, files, the names of the methods, and fmt.Sprint of a value that is
-- no scalar.
pub record Env : Type 0 where
  pub getenv : Text → Text
  pub home : Option Text
  pub temp_dir : Text
  pub read_file : Text → Option Text
  pub decode_file : Text → Decoded
  pub methods : List Text
  pub sprint : Value → Text

pub data ConfigError : Type 0 where
  decoding bad_value unknown_setting no_such_method want_string want_table want_positive :
      ConfigError

pub data Result {ℓ} (A : Type ℓ) : Type ℓ where
  ok : A → Result A
  err : ConfigError → Result A

infixl 5 ◌>>=◌
abbrev pub ◌>>=◌ {ℓ κ} : {A : Type ℓ} {B : Type κ} → Result A → (A → Result B) → Result B
err why >>= next = err why
ok value >>= next = next value

pub record OauthConfig : Type 0 where
  pub provider : Text
  pub issuer : Text
  pub client_id : Text
  pub client_secret : Text
  pub client_secret_file : Text
  pub auth_url : Text
  pub token_url : Text
  pub user_info_url : Text
  pub redirect_url : Text
  pub scopes : List Text
  pub allowed_users : List Text

pub record AuthConfig : Type 0 where
  pub password : Text
  pub password_file : Text
  pub oauth : OauthConfig

pub record DaemonConfig : Type 0 where
  pub socket : Text
  pub http : Text
  pub concurrency : ℕ
  pub db : Text
  pub max_retries : ℕ
  pub auth : AuthConfig

pub record MethodConfig : Type 0 where
  pub dest_dir : Text
  pub flags : List (Text × Text)

pub record Config : Type 0 where
  pub dest_dir : Text
  pub daemon : DaemonConfig
  pub methods : List (Text × MethodConfig)

-- A value, or what a file holds; none where the file cannot be read.
unfoldable pub value_or_file : Env → Text → Text → Option Text
unfolding trim_space
value_or_file env value file =
    if not (value == [])
    then some value
    else if not (file == [])
    then elim (env.read_file file) [ none ↦ none | some s ↦ some (trim_space s) ]
    else some []

-- AuthConfig.PasswordValue
unfoldable pub password_value : Env → AuthConfig → Option Text
unfolding value_or_file
password_value env a = value_or_file env a.password a.password_file

-- OAuthConfig.ClientSecretValue
unfoldable pub client_secret_value : Env → OauthConfig → Option Text
unfolding value_or_file
client_secret_value env o = value_or_file env o.client_secret o.client_secret_file

-- OAuthConfig.Enabled
unfoldable pub oauth_enabled : OauthConfig → Bool
oauth_enabled o =
    not (o.client_id == []) && (not (o.client_secret == []) || not (o.client_secret_file == []))

-- AuthConfig.Enabled
unfoldable pub auth_enabled : AuthConfig → Bool
unfolding oauth_enabled
auth_enabled a = not (a.password == []) || not (a.password_file == []) || oauth_enabled a.oauth

-- ExpandHome
unfoldable pub expand_home : Env → Text → Text
unfolding has_prefix join
expand_home env s =
    if not (s == codes "~") && not (has_prefix s (codes "~/"))
    then s
    else elim env.home [ none ↦ s | some home ↦ join (home ∷ drop 1 s ∷ []) ]

-- $XDG_STATE_HOME, or its default below the home directory.
state_dir : Env → Text
unfolding join
state_dir env =
    let dir = env.getenv (codes "XDG_STATE_HOME") in
    if dir == []
    then elim env.home [ none ↦ [] | some home ↦ join (home ∷ codes ".local" ∷ codes "state" ∷ []) ]
    else dir

in_state_dir : Env → Text → Text
unfolding state_dir join
in_state_dir env file =
    let dir = state_dir env in
    if not (dir == [])
    then join (dir ∷ codes "mirrortools" ∷ file ∷ [])
    else join (env.temp_dir ∷ file ∷ [])

-- DefaultDBPath
unfoldable pub default_db_path : Env → Text
unfolding in_state_dir
default_db_path env = in_state_dir env (codes "mirrord.db")

-- DefaultSocketPath
unfoldable pub default_socket_path : Env → Text
unfolding in_state_dir join
default_socket_path env =
    let runtime_dir = env.getenv (codes "XDG_RUNTIME_DIR") in
    if not (runtime_dir == [])
    then join (runtime_dir ∷ codes "mirrortools" ∷ codes "mirrord.sock" ∷ [])
    else in_state_dir env (codes "mirrord.sock")

-- Path
unfoldable pub config_path : Env → Text
unfolding join
config_path env =
    let p = env.getenv (codes "MIRROR_CONFIG") in
    let dir = env.getenv (codes "XDG_CONFIG_HOME") in
    let below = λ (d : Text). join (d ∷ codes "mirrortools" ∷ codes "config.toml" ∷ []) in
    if not (p == [])
    then p
    else if dir == []
    then elim env.home [ none ↦ [] | some home ↦ below (join (home ∷ codes ".config" ∷ [])) ]
    else below dir

abbrev no_oauth : OauthConfig
no_oauth = record {
  provider = [];
  issuer = [];
  client_id = [];
  client_secret = [];
  client_secret_file = [];
  auth_url = [];
  token_url = [];
  user_info_url = [];
  redirect_url = [];
  scopes = [];
  allowed_users = [];
}

-- The configuration where nothing is set.
unfoldable pub default_config : Env → Config
unfolding default_socket_path default_db_path
default_config env = record {
  dest_dir = [];
  daemon = record {
    socket = default_socket_path env;
    http = [];
    concurrency = 2;
    db = default_db_path env;
    max_retries = 3;
    auth = record { password = []; password_file = []; oauth = no_oauth };
  };
  methods = [];
}

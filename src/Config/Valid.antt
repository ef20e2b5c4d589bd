-- ===== src/Config/Valid.antt =====
-- What a configuration that was loaded is like.
use mathlib.Core.Path.{subst}
use mirrortools.Prelude.{
  zero, suc, ◌≤◌, ◌≡◌, true, Option, none, some, List, [], ◌∷◌, ◌==◌, arith, Text, codes,
  text_has_eq, ℤ, pos, negsuc, scan_int, insert, contains, All, if_holds,
}
use mirrortools.Config.{
  Value, Entries, str, boolean, integer, float, other, array, table, Decoded, missing, broken,
  decoded, Env, Result, ok, err, ◌>>=◌, DaemonConfig, MethodConfig, Config, default_config,
}
use mirrortools.Config.Load.{
  scalar, sorted_entries, each_setting, positive, daemon_text, daemon_auth, daemon_setting,
  parse_daemon_config, load_daemon, load_method, load_table, load_text, load_plain, load_setting,
  load_decoded, load, sub_table, parse_auth_config, method_setting, no_settings,
}

module _ {ℓ κ} {A : Type ℓ} where
  -- What holds of a result, if it is no error.
  abbrev pub Gives : (A → Type κ) → Result A → Type κ
  Gives P (ok a) = P a
  Gives P (err e) = Unit

>>=-Gives {ℓ κ μ ν} :
    {A : Type ℓ} {B : Type κ} (Q : A → Type μ) (P : B → Type ν) (m : Result A) (f : A → Result B)
    → Gives Q m
    → ((a : A) → Q a → Gives P (f a))
    → Gives P (m >>= f)
>>=-Gives Q P (ok a) f h k = k a h
>>=-Gives Q P (err e) f h k = tt

each_setting-Gives {ℓ κ} :
    {A : Type ℓ} (P : A → Type κ) (set : Text → Value → A → Result A)
    → ((k : Text) (v : Value) (a : A) → P a → Gives P (set k v a))
    → (entries : List (Text × Value)) (a : A) → P a
    → Gives P (each_setting set entries a)
unfolding each_setting
each_setting-Gives P set keep [] a h = h
each_setting-Gives P set keep ((k, v) ∷ rest) a h =
    >>=-Gives P P (set k v a) (each_setting set rest) (keep k v a h)
      (λ b hb. each_setting-Gives P set keep rest b hb)

abbrev Anyway {ℓ} : {A : Type ℓ} → A → Type 0
Anyway a = Unit

Gives-Anyway {ℓ} : {A : Type ℓ} (m : Result A) → Gives Anyway m
Gives-Anyway (ok a) = tt
Gives-Anyway (err e) = tt

positive-Gives : (o : Option ℤ) → Gives (λ n. 1 ≤ n) (positive o)
unfolding positive
positive-Gives none = tt
positive-Gives (some (negsuc n)) = tt
positive-Gives (some (pos zero)) = tt
positive-Gives (some (pos (suc n))) = omega arith

-- At least one job at a time, and at least one attempt.
abbrev pub IsUsable : DaemonConfig → Type 0
IsUsable d = (1 ≤ d.concurrency) × (1 ≤ d.max_retries)

daemon_text-IsUsable :
    (env : Env) (k s : Text) (d : DaemonConfig)
    → IsUsable d
    → Gives IsUsable (daemon_text env k s d)
unfolding daemon_text
daemon_text-IsUsable env k s d h =
    let usable = Gives IsUsable in
    if_holds usable (k == codes "socket") _ _ (λ _. h)
      (λ _.
        if_holds usable (k == codes "http") _ _ (λ _. h)
          (λ _.
            if_holds usable (k == codes "concurrency") _ _
              (λ _.
                >>=-Gives (λ n. 1 ≤ n) IsUsable (positive (scan_int s)) _
                  (positive-Gives (scan_int s)) (λ c p. (p, h.1)))
              (λ _.
                if_holds usable (k == codes "db") _ _ (λ _. h)
                  (λ _.
                    if_holds usable (k == codes "max_retries") _ _
                      (λ _.
                        >>=-Gives (λ n. 1 ≤ n) IsUsable (positive (scan_int s)) _
                          (positive-Gives (scan_int s)) (λ c p. (h.0, p)))
                      (λ _. tt)))))

daemon_auth-IsUsable :
    (env : Env) (v : Value) (d : DaemonConfig) → IsUsable d → Gives IsUsable (daemon_auth env v d)
unfolding daemon_auth
daemon_auth-IsUsable env v d h =
    >>=-Gives Anyway IsUsable (sub_table v) _ (Gives-Anyway (sub_table v)) (λ m _.
      >>=-Gives Anyway IsUsable (parse_auth_config env m d.auth) _
        (Gives-Anyway (parse_auth_config env m d.auth)) (λ a _. h))

daemon_setting-IsUsable :
    (env : Env) (k : Text) (v : Value) (d : DaemonConfig)
    → IsUsable d
    → Gives IsUsable (daemon_setting env k v d)
unfolding daemon_setting
daemon_setting-IsUsable env k v d h =
    if_holds (Gives IsUsable) (k == codes "auth") _ _ (λ _. daemon_auth-IsUsable env v d h)
      (λ _.
        >>=-Gives Anyway IsUsable (scalar v) _ (Gives-Anyway (scalar v))
          (λ s _. daemon_text-IsUsable env k s d h))

-- A usable daemon, and sections for registered methods only.
abbrev pub IsValid : Env → Config → Type 0
IsValid env cfg = IsUsable cfg.daemon × All (λ m. contains env.methods m.0 ≡ true) cfg.methods

All-insert_key :
    (P : Text → Type 0) (key : Text) (new : MethodConfig) (entries : List (Text × MethodConfig))
    → P key
    → All (λ m. P m.0) entries
    → All (λ m. P m.0) (insert key new entries)
unfolding insert
All-insert_key P key new [] h k = (h, tt)
All-insert_key P key new ((x, old) ∷ rest) h k =
    if_holds (All (λ m. P m.0)) (x == key) _ _ (λ _. (h, k.1))
      (λ _. (k.0, All-insert_key P key new rest h k.1))

load_table-IsValid :
    (env : Env) (key : Text) (m : Entries) (cfg : Config)
    → IsValid env cfg
    → Gives (IsValid env) (load_table env key m cfg)
unfolding load_table load_daemon load_method parse_daemon_config
load_table-IsValid env key m cfg h =
    if_holds (Gives (IsValid env)) (key == codes "daemon") _ _
      (λ _.
        >>=-Gives IsUsable (IsValid env)
          (each_setting (daemon_setting env) (sorted_entries m) cfg.daemon) _
          (each_setting-Gives IsUsable (daemon_setting env) (daemon_setting-IsUsable env)
            (sorted_entries m) cfg.daemon h.0)
          (λ d u. (u, h.1)))
      (λ _.
        if_holds (Gives (IsValid env)) (contains env.methods key) _ _
          (λ known.
            >>=-Gives Anyway (IsValid env)
              (each_setting (method_setting env) (sorted_entries m) no_settings) _
              (Gives-Anyway (each_setting (method_setting env) (sorted_entries m) no_settings))
              (λ mc _. (
                h.0,
                All-insert_key (λ x. contains env.methods x ≡ true) key mc cfg.methods known h.1,
              )))
          (λ _. tt))

load_plain-IsValid :
    (env : Env) (key : Text) (v : Value) (cfg : Config)
    → IsValid env cfg
    → Gives (IsValid env) (load_plain env key v cfg)
unfolding load_plain load_text
load_plain-IsValid env key (str s) cfg h =
    if_holds (Gives (IsValid env)) (key == codes "destdir") _ _ (λ _. h) (λ _. tt)
load_plain-IsValid env key v cfg h =
    if_holds (Gives (IsValid env)) (key == codes "destdir") _ _ (λ _. tt) (λ _. tt)

load_setting-IsValid :
    (env : Env) (key : Text) (v : Value) (cfg : Config)
    → IsValid env cfg
    → Gives (IsValid env) (load_setting env key v cfg)
unfolding load_setting
load_setting-IsValid env key (table m) cfg h = load_table-IsValid env key m cfg h
load_setting-IsValid env key (str x) cfg h = load_plain-IsValid env key (str x) cfg h
load_setting-IsValid env key (boolean x) cfg h = load_plain-IsValid env key (boolean x) cfg h
load_setting-IsValid env key (integer x) cfg h = load_plain-IsValid env key (integer x) cfg h
load_setting-IsValid env key (float x) cfg h = load_plain-IsValid env key (float x) cfg h
load_setting-IsValid env key other cfg h = load_plain-IsValid env key other cfg h
load_setting-IsValid env key (array x) cfg h = load_plain-IsValid env key (array x) cfg h

default_config-IsValid : (env : Env) → IsValid env (default_config env)
unfolding default_config
default_config-IsValid env = ((omega arith, omega arith), tt)

load_decoded-IsValid : (env : Env) (d : Decoded) → Gives (IsValid env) (load_decoded env d)
unfolding load_decoded
load_decoded-IsValid env missing = default_config-IsValid env
load_decoded-IsValid env broken = tt
load_decoded-IsValid env (decoded raw) =
    each_setting-Gives (IsValid env) (load_setting env) (load_setting-IsValid env)
      (sorted_entries raw) (default_config env) (default_config-IsValid env)

load-Gives : (env : Env) (path : Text) → Gives (IsValid env) (load env path)
unfolding load
load-Gives env path =
    if_holds (Gives (IsValid env)) (path == []) _ _ (λ _. default_config-IsValid env)
      (λ _. load_decoded-IsValid env (env.decode_file path))

-- A configuration that was loaded, from whatever file, runs at least one job at a time and tries
-- each at least once, and has sections for registered methods only.
pub load-IsValid :
    (env : Env) (path : Text) (cfg : Config) → load env path ≡ ok cfg → IsValid env cfg
load-IsValid env path cfg e = subst (Gives (IsValid env)) e (load-Gives env path)

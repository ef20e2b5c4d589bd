-- ===== src/Tests/Config.antt =====
-- The theorems on the configuration, on a small file.
use mirrortools.Prelude.{◌≡◌, refl, none, some, [], ◌∷◌, codes, pos, All}
use mirrortools.Config.{
  Entries, str, integer, table, entry, nil, decoded, Env, Config, ok, default_config,
}
use mirrortools.Config.Load.{load, entry_list}
use mirrortools.Config.Valid.{IsValid, load-IsValid}
use mirrortools.Config.Known.{IsKnown, load-IsKnown}

abbrev pub file : Entries
file = entry (codes "destdir") (str (codes "~/m")) (
    entry (codes "daemon") (table (entry (codes "concurrency") (integer (pos 4)) nil))
      (entry (codes "http") (table (entry (codes "wait") (str (codes "2s")) nil)) nil))

abbrev pub env : Env
env = record {
  getenv = λ name. [];
  home = some (codes "/h");
  temp_dir = codes "/t";
  read_file = λ path. none;
  decode_file = λ path. decoded file;
  methods = codes "http" ∷ [];
  sprint = λ v. [];
}

abbrev pub loaded : Config
loaded = record (default_config env) {
  dest_dir = codes "/h/m";
  daemon = record (default_config env).daemon { concurrency = 4 };
  methods = (codes "http", record { dest_dir = []; flags = (codes "wait", codes "2s") ∷ [] }) ∷ [];
}

file_loads : load env (codes "/c") ≡ ok loaded
unfolding load
file_loads = refl

load-IsValid_example : IsValid env loaded
load-IsValid_example = load-IsValid env (codes "/c") loaded file_loads

load-IsKnown_example : All (IsKnown env) (entry_list file)
load-IsKnown_example = load-IsKnown env (codes "/c") file loaded (λ e. cc) refl file_loads

-- ===== src/Config/Known.antt =====
-- Which files load: those whose settings are all known.

use mirrortools.Prelude.{
  ◌≡◌, ◌≢◌, refl, sym, ap, ◌∙◌, true, List, [], ◌∷◌, ◌⊎◌, inl, inr, ◌==◌, arith, Text, codes,
  text_has_eq, text_eq_iff, text_lt, contains, All, Bool-cases, by_key, All-of-sort_by,
}
use mirrortools.Config.{
  Value, Entries, str, boolean, integer, float, other, array, table, decoded, Env, Result, ok, err,
  ◌>>=◌, Config, default_config,
}
use mirrortools.Config.Load.{
  sorted_entries, entry_list, each_setting, load_table, load_text, load_plain, load_setting,
  load_decoded, load,
}

-- What a chain that succeeds has gone through.
module _ {ℓ κ} {A : Type ℓ} {B : Type κ} where
  bind-ok :
      (first : Result A) (next : A → Result B) (b : B)
      → (first >>= next) ≡ ok b
      → (a : A) × (next a ≡ ok b) × (first ≡ ok a)
  bind-ok (err why) next b e = cc
  bind-ok (ok value) next b e = (value, e, refl)

-- A setting that the file may have at its top: a section of the daemon or of a registered method, or
-- a text for the destination.
abbrev pub IsKnown : Env → Text × Value → Type 0
IsKnown env (key, table m) = (key ≡ codes "daemon") ⊎ (contains env.methods key ≡ true)
IsKnown env (key, str s) = key ≡ codes "destdir"
IsKnown env (key, v) = ⊥

-- A loop that ends well has accepted each setting.
each_setting-accepts :
    (P : Text × Value → Type 0) (set : Text → Value → Config → Result Config)
    → ((k : Text) (v : Value) (a b : Config) → set k v a ≡ ok b → P (k, v))
    → (entries : List (Text × Value)) (a b : Config) → each_setting set entries a ≡ ok b
    → All P entries
unfolding each_setting
each_setting-accepts P set accept [] a b e = tt
each_setting-accepts P set accept ((k, v) ∷ rest) a b e =
    let (c, later, here) = bind-ok (set k v a) (each_setting set rest) b e in
    (accept k v a c here, each_setting-accepts P set accept rest c b later)

load_setting-IsKnown :
    (env : Env) (k : Text) (v : Value) (a b : Config)
    → load_setting env k v a ≡ ok b
    → IsKnown env (k, v)
unfolding load_setting load_table load_plain load_text
load_setting-IsKnown env k (table m) a b e = elim (Bool-cases (k == codes "daemon")) [
  | inl t ↦ inl ((text_eq_iff k (codes "daemon")).0 t)
  | inr t ↦ inr (ground (arith, e, t))
]
load_setting-IsKnown env k (str s) a b e = ground (arith, e, text_eq_iff k (codes "destdir"))
load_setting-IsKnown env k (boolean x) a b e = ground (arith, e)
load_setting-IsKnown env k (integer x) a b e = ground (arith, e)
load_setting-IsKnown env k (float x) a b e = ground (arith, e)
load_setting-IsKnown env k other a b e = ground (arith, e)
load_setting-IsKnown env k (array x) a b e = ground (arith, e)

load_file :
    (env : Env) (path : Text) → path ≢ [] → load env path ≡ load_decoded env (env.decode_file path)
unfolding load
load_file env [] h = absurd (h refl)
load_file env (c ∷ path) h = refl

load_decoded-ok :
    (env : Env) (raw : Entries) (cfg : Config)
    → load_decoded env (decoded raw) ≡ ok cfg
    → each_setting (load_setting env) (sorted_entries raw) (default_config env) ≡ ok cfg
unfolding load_decoded
load_decoded-ok env raw cfg e = e

-- If a file that is decoded loads, its path not empty, each setting at its top is known: the
-- section of the daemon or of a registered method, or a text for the destination.
pub load-IsKnown :
    (env : Env) (path : Text) (raw : Entries) (cfg : Config)
    → path ≢ []
    → env.decode_file path ≡ decoded raw
    → load env path ≡ ok cfg
    → All (IsKnown env) (entry_list raw)
load-IsKnown env path raw cfg h d e =
    All-of-sort_by (by_key (λ x. x.0) text_lt) (IsKnown env) (entry_list raw) (
      unfold sorted_entries in
      each_setting-accepts (IsKnown env) (load_setting env) (load_setting-IsKnown env)
        (sorted_entries raw) (default_config env) cfg
        (load_decoded-ok env raw cfg (sym (load_file env path h ∙ ap (load_decoded env) d) ∙ e)))

-- ===== src/Tests/Registry.antt =====
-- The theorems on the registry, on two methods.
use mirrortools.FilePaths.Joining.{IsName}
use mirrortools.FilePaths.{join, elements, path_of}
use mirrortools.Registry.Subdirs.{join-safe_name}
use mirrortools.Prelude.{
  Bool, true, false, none, some, [], ◌∷◌, map, lookup, codes, Text, ◌≡◌, text_has_eq, ◌++◌, arith,
  InOrder, text_lt, count, List,
}
use mirrortools.Registry.{Method, Registry, detect, safe_id, safe_name}
use mirrortools.Registry.Detection.{candidates, specific, first, or_else, detect-eq}

abbrev method_of : Text → Bool → Method
method_of name fallback = record {
  name = name;
  source = [];
  describe = [];
  match_source = some (λ s. true);
  is_fallback = fallback;
  subdir = none;
}

abbrev pub two : Registry
two =
    (codes "http", method_of (codes "http") true)
    ∷ (codes "zip", method_of (codes "zip") false)
    ∷ []

detect-eq_example :
    (order : List Text) × InOrder text_lt order
    × ((q : Text → Bool) → count q order ≡ count q (map (λ e. e.0) two))
    × (let found = candidates (codes "http://a") (map (λ name. lookup name two) order) in
        detect (codes "http://a") two ≡ or_else (first (specific found)) (first found))
detect-eq_example = detect-eq (codes "http://a") two

join-safe_name_example :
    IsName (safe_id (codes "../a"))
    × (join (codes "/m" ∷ safe_name (codes "http") (codes "../a") ∷ [])
        ≡ path_of true (elements (codes "/m") ++ (codes "http" ∷ safe_id (codes "../a") ∷ [])))
join-safe_name_example =
    join-safe_name (codes "/m") (codes "http") (codes "../a") (λ e. cc)
      ((ground arith, (λ e. ground (arith, e)), (λ e. ground (arith, e))), (λ e. ground (arith, e)))

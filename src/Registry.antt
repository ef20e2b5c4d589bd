-- ===== src/Registry.antt =====
-- mirror/mirror.go: the registry of the mirroring methods, and which method a source is for. The
-- flags and the run of a method are package flag's and the backend's; a nil Match or Subdir is none.
pub mod Detection
pub mod Subdirs
use mirrortools.FilePaths.{join}
use mirrortools.Prelude.{
  Bool, true, false, ◌&&◌, ◌||◌, not, Option, none, some, List, [], ◌∷◌, map, if◌then◌else◌, ◌==◌,
  nat_eq, Text, text_has_eq, text_lt, lookup, insert, sort_by, codes,
}

pub record Method : Type 0 where
  pub name : Text
  pub source : Text
  pub describe : Text
  pub match_source : Option (Text → Bool)
  pub is_fallback : Bool
  pub subdir : Option (Text → Text)

abbrev pub Registry : Type 0
Registry = List (Text × Method)

-- Register: none where it panics.
unfoldable pub register : Method → Registry → Option Registry
unfolding lookup insert
register m registry = if m.name == [] then none else elim (lookup m.name registry) [
  | none ↦ some (insert m.name m registry)
  | some other ↦ none
]

-- Get
abbrev pub get : Text → Registry → Option Method
get name registry = lookup name registry

-- Names
unfoldable pub names : Registry → List Text
unfolding sort_by
names registry = sort_by text_lt (map (λ e. e.0) registry)

-- m.Match != nil && m.Match(source)
unfoldable pub accepts : Text → Method → Bool
accepts source m = elim m.match_source [ none ↦ false | some f ↦ f source ]

-- if fallback == nil { fallback = m }
abbrev pub or_first : Option Method → Method → Option Method
or_first none m = some m
or_first (some f) m = some f

-- The loop of Detect; a name without a method does not occur.
unfoldable pub detect_among : Text → List (Option Method) → Option Method → Option Method
detect_among source [] fallback = fallback
detect_among source (none ∷ rest) fallback = detect_among source rest fallback
detect_among source (some m ∷ rest) fallback =
    let skipped = detect_among source rest fallback in
    let kept = detect_among source rest (or_first fallback m) in
    if not (accepts source m) then skipped else if not m.is_fallback then some m else kept

-- Detect
unfoldable pub detect : Text → Registry → Option Method
unfolding detect_among names
detect source registry =
    detect_among source (map (λ name. lookup name registry) (names registry)) none

-- The test of SafeName.
abbrev pub not_element : Text → Bool
not_element id = id == [] || id == codes "." || id == codes ".."

-- SafeName before filepath.Join: the replacer and the test.
unfoldable pub safe_id : Text → Text
safe_id id =
    let clean = map (λ c. if nat_eq c b'/' || nat_eq c b'\\' then b'_' else c) id in
    if not_element clean then codes "_" else clean

-- SafeName
unfoldable pub safe_name : Text → Text → Text
unfolding safe_id join
safe_name method id = join (method ∷ safe_id id ∷ [])

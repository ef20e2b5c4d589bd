-- ===== src/Registry/Detection.antt =====
-- What Detect chooses: the first specific method that accepts the source, or else the first that
-- accepts it; and what SafeName makes of an identifier.
use mirrortools.Prelude.{
  ◌≡◌, ◌≢◌, refl, Bool, true, false, ◌||◌, not, Option, none, some, List, [], ◌∷◌, map,
  if◌then◌else◌, nat_eq, arith, Text, codes, text_has_eq, text_eq_iff, lookup, select, All, InOrder,
  text_lt, count, sort_by, sort_by-InOrder, count-sort_by, text_lt-IsWeakOrder,
}
use mirrortools.Registry.{
  Method, Registry, names, accepts, detect_among, detect, not_element, safe_id,
}

-- The methods that accept the source, in the order of their names.
unfoldable pub candidates : Text → List (Option Method) → List Method
candidates source [] = []
candidates source (none ∷ rest) = candidates source rest
candidates source (some m ∷ rest) =
    let others = candidates source rest in if accepts source m then m ∷ others else others

abbrev pub specific : List Method → List Method
specific ms = select (λ m. not m.is_fallback) ms

abbrev pub first : List Method → Option Method
first [] = none
first (m ∷ ms) = some m

abbrev pub or_else : Option Method → Option Method → Option Method
or_else none b = b
or_else (some m) b = some m

detect_among-eq :
    (source : Text) (ms : List (Option Method)) (fallback : Option Method)
    → detect_among source ms fallback
      ≡ or_else
          (first (specific (candidates source ms)))
          (or_else fallback (first (candidates source ms)))
unfolding detect_among candidates select
detect_among-eq source [] none = refl
detect_among-eq source [] (some f) = refl
detect_among-eq source (none ∷ rest) fallback = detect_among-eq source rest fallback
detect_among-eq source (some m ∷ rest) none =
    ground (arith, detect_among-eq source rest none, detect_among-eq source rest (some m))
detect_among-eq source (some m ∷ rest) (some f) =
    ground (arith, detect_among-eq source rest (some f))

-- Among the methods that accept a source, in the ascending order of the registered names, each
-- name as often as it is registered, Detect chooses the first that is not a fallback, else the
-- first one, and finds none if there is none.
pub detect-eq :
    (source : Text) (registry : Registry)
    → (order : List Text) × InOrder text_lt order
      × ((q : Text → Bool) → count q order ≡ count q (map (λ e. e.0) registry))
      × (let found = candidates source (map (λ name. lookup name registry) order) in
          detect source registry ≡ or_else (first (specific found)) (first found))
unfolding detect names
detect-eq source registry =
    let order = sort_by text_lt (map (λ e. e.0) registry) in
    (
      order,
      sort_by-InOrder text_lt text_lt-IsWeakOrder (map (λ e. e.0) registry),
      (λ q. count-sort_by text_lt q (map (λ e. e.0) registry)),
      detect_among-eq source (map (λ name. lookup name registry) order) none,
    )

no_slash_map :
    (id : Text)
    → All
        (λ c. nat_eq c b'/' ≡ false)
        (map (λ c. if nat_eq c b'/' || nat_eq c b'\\' then b'_' else c) id)
no_slash_map [] = tt
no_slash_map (c ∷ id) = (ground arith, no_slash_map id)

-- A path element: no slash in it, and neither empty nor "." nor "..".
abbrev pub IsElement : Text → Type 0
IsElement id =
    All (λ c. nat_eq c b'/' ≡ false) id × (id ≢ []) × (id ≢ codes ".") × (id ≢ codes "..")

IsElement-or_underscore :
    (clean : Text) (b : Bool)
    → not_element clean ≡ b
    → All (λ c. nat_eq c b'/' ≡ false) clean
    → IsElement (if b then codes "_" else clean)
IsElement-or_underscore clean true e h = (
  (ground arith, tt),
  (λ k. ground (arith, k)),
  (λ k. ground (arith, k)),
  (λ k. ground (arith, k)),
)
IsElement-or_underscore clean false e h = (
  h,
  (λ k. ground (arith, e, text_eq_iff clean [], k)),
  (λ k. ground (arith, e, text_eq_iff clean (codes "."), k)),
  (λ k. ground (arith, e, text_eq_iff clean (codes ".."), k)),
)

-- What SafeName makes of any identifier is a single path element: it has no slash, and is neither
-- empty nor one of the names with one and with two dots.
pub safe_id-IsElement : (id : Text) → IsElement (safe_id id)
unfolding safe_id
safe_id-IsElement id =
    IsElement-or_underscore (map (λ c. if nat_eq c b'/' || nat_eq c b'\\' then b'_' else c) id) _
      refl (no_slash_map id)

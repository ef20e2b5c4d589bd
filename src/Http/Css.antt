-- ===== src/Http/Css.antt =====
-- extractCSS of httpmirror.go: the URLs that a stylesheet refers to, by the regular expressions
-- cssURLRe and cssImportRe.
use mirrortools.Prelude.{
  ℕ, zero, suc, ◌-◌, Bool, ◌||◌, ◌&&◌, Option, none, some, List, [], ◌∷◌, ◌++◌, if◌then◌else◌, ◌==◌,
  nat_eq, leb, length, drop, Text, codes, text_has_eq, has_prefix, drop_while, cut_first,
}
use mirrortools.NetUrl.{Url, NetUrl}
use mirrortools.Http.{resolve}

-- The class \s.
abbrev pub re_space : ℕ → Bool
re_space c = nat_eq c 32 || nat_eq c 9 || nat_eq c 10 || nat_eq c 12 || nat_eq c 13

-- "([^"]*)", for a quote: what is captured, and the rest.
quoted : ℕ → Text → Option (Text × Text)
unfolding cut_first
quoted q [] = none
quoted q (c ∷ s) = if nat_eq c q then cut_first q s else none

-- ([^)\s]*)
bare : Text → Text × Text
bare [] = ([], [])
bare (c ∷ s) =
    let rest = bare s in if re_space c || nat_eq c b')' then ([], c ∷ s) else (c ∷ rest.0, rest.1)

-- \s*\)
closed : Text → Option Text
closed [] = none
closed (c ∷ s) =
    let rest = closed s in if nat_eq c b')' then some s else if re_space c then rest else none

close : Option (Text × Text) → Option (Text × Text)
unfolding closed
close none = none
close (some (found, rest)) = elim (closed rest) [ none ↦ none | some after ↦ some (found, after) ]

abbrev pub or_match : Option (Text × Text) → Option (Text × Text) → Option (Text × Text)
or_match none b = b
or_match (some m) b = some m

-- cssURLRe at the start of a text.
match_url : Text → Option (Text × Text)
unfolding quoted bare close has_prefix drop_while
match_url s =
    let inner = drop_while re_space (drop 4 s) in
    if has_prefix s (codes "url(")
    then or_match (close (quoted b'"' inner))
        (or_match (close (quoted b'\'' inner)) (close (some (bare inner))))
    else none

-- cssImportRe at the start of a text.
match_import : Text → Option (Text × Text)
unfolding quoted has_prefix drop_while
match_import s =
    let spaced = drop 7 s in
    let inner = drop_while re_space spaced in
    if has_prefix s (codes "@import") && leb 1 (length spaced - length inner)
    then or_match (quoted b'"' inner) (quoted b'\'' inner)
    else none

-- FindAllStringSubmatch: from the left, without overlaps; `skip` bytes belong to the last match.
unfoldable pub find_all : (Text → Option (Text × Text)) → ℕ → Text → List Text
find_all match skip [] = []
find_all match (suc skip) (c ∷ s) = find_all match skip s
find_all match zero (c ∷ s) = elim (match (c ∷ s)) [
  | none ↦ find_all match zero s
  | some (found, rest) ↦ found ∷ find_all match (length s - length rest) s
]

abbrev pub found_url : Option Url → List Url
found_url none = []
found_url (some u) = u ∷ []

resolve_all : NetUrl → Url → List Text → List Url
resolve_all net base [] = []
resolve_all net base (ref ∷ refs) =
    let rest = resolve_all net base refs in
    if ref == [] then rest else found_url (resolve net base ref) ++ rest

-- extractCSS
unfoldable pub extract_css : NetUrl → Text → Url → List Url
unfolding match_url match_import find_all resolve_all
extract_css net css base =
    resolve_all net base (find_all match_url 0 css)
    ++ resolve_all net base (find_all match_import 0 css)

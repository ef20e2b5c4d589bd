-- ===== src/Git/Paths.antt =====
-- Where a clone is kept: below its host's directory, but for one kind of path.
use mathlib.Core.List.{reverse}
use mathlib.Core.Path.{subst}
use mirrortools.Prelude.{
  ◌≡◌, ◌≢◌, refl, sym, ap, ◌∙◌, Bool, true, ◌||◌, List, [], ◌∷◌, ◌++◌, ◌==◌, Option, none, some,
  nat_has_eq, arith, Text, codes, text_has_eq, text_eq_iff, slash, split, All, Bool-cases, inl, inr,
  ◌⊎◌, has_prefix, trim_suffix, trim_prefix, three_guards, to_lower, has_infix, cut_first,
}
use mirrortools.FilePaths.{
  dot, dot_dot, starts_slash, elements, step, walk, go_up, path_of, with_slashes, clean, join,
}
use mirrortools.FilePaths.Cleaning.{NoSlash, elements-AreClean, split-NoSlash, split-append}
use mirrortools.FilePaths.Joining.{IsName, IsName-AreClean, step_name, join-walk}
use mirrortools.FilePaths.Below.{usable-IsName}
use mirrortools.NetUrl.{Url, NetUrl}
use mirrortools.Git.{
  parse_source, clean_host_and_path, repo_part, repo_path, unusable_host, from_url, from_scp,
  is_git_scheme, without_default_port, default_ports, after_at,
}
use mirrortools.Git.Ending.{
  git, trim_last, trim_suffix-append, trim_suffix-with_slashes, NoSlash-trim_last,
}

-- The last element as a step: it stands for itself, or for one element up.
step_stem :
    (rooted : Bool) (s : Text) (stack : List Text)
    → NoSlash s
    → s ≢ dot_dot
    → (step rooted stack s ≡ stack) ⊎ (IsName s × (step rooted stack s ≡ s ∷ stack))
unfolding step
step_stem rooted s stack h d = elim (Bool-cases (s == [] || s == dot)) [
  | inl e ↦ inl (rw e refl)
  | inr e ↦
      let name : IsName s = (
        (
          h,
          (λ z. ground (arith, e, z, text_eq_iff s [])),
          (λ z. ground (arith, e, z, text_eq_iff s dot)),
        ),
        d,
      ) in
      inr (name, step_name rooted stack s name)
]

-- A stack of names above a name.
abbrev pub AreAbove : Text → List Text → List Text → Type 0
AreAbove top stack result =
    (names : List Text) × (result ≡ names ++ (top ∷ stack)) × All IsName names

-- A step up takes the last name.
pub step_up :
    (rooted : Bool) (x : Text) (stack : List Text)
    → IsName x
    → step rooted (x ∷ stack) dot_dot ≡ stack
unfolding step go_up
step_up rooted x stack h = ground (arith, text_eq_iff x dot_dot, h.1)

step_above_up :
    (rooted : Bool) (top : Text) (names stack : List Text)
    → All IsName names
    → names ≢ []
    → AreAbove top stack (step rooted (names ++ (top ∷ stack)) dot_dot)
step_above_up rooted top [] stack h d = absurd (d refl)
step_above_up rooted top (x ∷ names) stack h d =
    (names, step_up rooted x (names ++ (top ∷ stack)) h.0, h.1)

step_above :
    (rooted : Bool) (top s : Text) (names stack : List Text)
    → All IsName names
    → NoSlash s
    → (names ≡ [] → s ≢ dot_dot)
    → AreAbove top stack (step rooted (names ++ (top ∷ stack)) s)
step_above rooted top s names stack h n d = elim (Bool-cases (s == dot_dot)) [
  | inl e ↦
      let up = (text_eq_iff s dot_dot).0 e in
      subst (λ (z : Text). AreAbove top stack (step rooted (names ++ (top ∷ stack)) z)) (sym up)
        (step_above_up rooted top names stack h (λ z. d z up))
  | inr e ↦
      elim (step_stem rooted s (names ++ (top ∷ stack)) n
        (λ z. ground (arith, e, z, text_eq_iff s dot_dot))) [
          | inl same ↦ (names, same, h)
          | inr (name, pushed) ↦ (s ∷ names, pushed, (name, h))
        ]
]

pub walk_above :
    (rooted : Bool) (top x : Text) (xs names stack : List Text)
    → All IsName names
    → All IsName (x ∷ xs)
    → (names ≡ [] → trim_last (x ∷ xs) ≢ dot_dot ∷ [])
    → AreAbove top stack (walk rooted (names ++ (top ∷ stack)) (trim_last (x ∷ xs)))
unfolding walk trim_last
walk_above rooted top x [] names stack h k d =
    step_above rooted top (trim_suffix x git) names stack h
      (NoSlash-trim_last (x ∷ []) (k.0.0.0, tt)).0 (λ z e. d z (ap (λ (l : Text). l ∷ []) e))
walk_above rooted top x (y ∷ ys) names stack h k d =
    subst (λ (l : List Text). AreAbove top stack (walk rooted l (trim_last (y ∷ ys))))
      (sym (step_name rooted (names ++ (top ∷ stack)) x k.0))
      (walk_above rooted top y ys (x ∷ names) stack (k.0, h) k.1 (λ z. cc))

-- The text of a path below the host, as it comes from names with the ending lost.
abbrev pub IsTrimmed : Text → Type 0
IsTrimmed path =
    (x : Text) × (xs : List Text) × (path ≡ with_slashes (trim_last (x ∷ xs))) × All IsName (x ∷ xs)

trim_prefix-slash : (s : Text) → trim_prefix (slash ∷ s) (codes "/") ≡ s
unfolding trim_prefix has_prefix
trim_prefix-slash s = refl

IsTrimmed-path_of :
    (parts : List Text)
    → All IsName parts
    → trim_suffix (path_of true parts) git ≢ slash ∷ []
    → IsTrimmed (trim_prefix (trim_suffix (path_of true parts) git) (codes "/"))
unfolding path_of
IsTrimmed-path_of [] h d = absurd (d (unfold trim_suffix in refl))
IsTrimmed-path_of (x ∷ xs) h d = (
  x,
  xs,
  ap (λ (l : Text). trim_prefix l (codes "/")) (trim_suffix-append [] (with_slashes (x ∷ xs)))
      ∙ trim_prefix-slash (trim_suffix (with_slashes (x ∷ xs)) git)
      ∙ trim_suffix-with_slashes x xs,
  h,
)

repo_path-IsTrimmed :
    (raw : Text) → repo_path raw ≢ slash ∷ [] → IsTrimmed (trim_prefix (repo_path raw) (codes "/"))
unfolding repo_path clean
repo_path-IsTrimmed raw d =
    let part = repo_part raw in
    IsTrimmed-path_of (elements (slash ∷ part))
      (IsName-AreClean (elements (slash ∷ part)) (elements-AreClean (slash ∷ part))) d

-- What cleanHostAndPath returns: a name for the host, and a path from names with the ending lost.
abbrev pub IsCloneSource : Text × Text → Type 0
IsCloneSource found = IsName found.0 × IsTrimmed found.1

clean_host_and_path-IsCloneSource :
    (host raw : Text) (found : Text × Text)
    → clean_host_and_path host raw ≡ some found
    → IsCloneSource found
unfolding clean_host_and_path
clean_host_and_path-IsCloneSource host raw found e =
    let p = repo_path raw in
    let (usable, there, kept, here) =
      three_guards (unusable_host host) (p == [] || p == (slash ∷ []) || p == dot) _ _ e in
    subst (λ (z : Text × Text). IsName z.0 × IsTrimmed z.1) here
      (
        usable-IsName host (unfold unusable_host in usable),
        repo_path-IsTrimmed raw (λ z. ground (arith, there, z, text_eq_iff p (slash ∷ []))),
      )

from_url-IsCloneSource :
    (o : Option Url) (found : Text × Text) → from_url o ≡ some found → IsCloneSource found
unfolding from_url
from_url-IsCloneSource none found e = cc
from_url-IsCloneSource (some u) found e = elim (Bool-cases (is_git_scheme (to_lower u.scheme))) [
  | inl t ↦
      clean_host_and_path-IsCloneSource
        (without_default_port (to_lower u.scheme) (to_lower u.host) default_ports) u.path found
        (rw t at e)
  | inr t ↦ let never = rw t at e in cc
]

from_scp-IsCloneSource :
    (o : Option (Text × Text)) (found : Text × Text) → from_scp o ≡ some found → IsCloneSource found
unfolding from_scp
from_scp-IsCloneSource none found e = cc
from_scp-IsCloneSource (some (before, after)) found e = elim (Bool-cases (before == [])) [
  | inl t ↦ let never = rw t at e in cc
  | inr t ↦ clean_host_and_path-IsCloneSource (to_lower (after_at before)) after found (rw t at e)
]

pub parse_source-IsCloneSource :
    (net : NetUrl) (source : Text) (found : Text × Text)
    → parse_source net source ≡ some found
    → IsCloneSource found
unfolding parse_source
parse_source-IsCloneSource net source found e = elim (Bool-cases (has_infix source (codes "://"))) [
  | inl t ↦ from_url-IsCloneSource (net.parse source) found (rw t at e)
  | inr t ↦ elim (Bool-cases (has_infix source (codes "::"))) [
    | inl d ↦ let never = rw d at (rw t at e) in cc
    | inr d ↦ from_scp-IsCloneSource (cut_first b':' source) found (rw d at (rw t at e))
  ]
]

pub join_host_path :
    (base host path : Text)
    → base ≢ []
    → IsName host
    → join (base ∷ host ∷ path ∷ [])
      ≡ path_of
          (starts_slash base)
          (reverse (walk (starts_slash base) (host ∷ reverse (elements base)) (split slash path)))
unfolding with_slashes walk step split
join_host_path base host path h k =
    let rooted = starts_slash base in
    join-walk base host (path ∷ []) h
    ∙ ap (λ (l : List Text). path_of rooted (reverse l))
        (ap (walk rooted (reverse (elements base))) (
            split-append host path
            ∙ ap (λ (l : List Text). l ++ split slash path) (split-NoSlash host k.0.0))
          ∙ ap (λ (l : List Text). walk rooted l (split slash path))
              (step_name rooted (reverse (elements base)) host k))

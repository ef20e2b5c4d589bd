-- ===== src/Git/Contained.antt =====
-- Whether a clone stays in its host's directory.
use mathlib.Core.List.{reverse, reverse-append, reverse-reverse, append_assoc}
use mathlib.Core.Path.{subst}
use mirrortools.Prelude.{
  ◌≡◌, ◌≢◌, refl, sym, ap, ◌∙◌, List, [], ◌∷◌, ◌++◌, Option, none, some, Text, slash, split, All,
  text_has_eq, some_eq,
}
use mirrortools.FilePaths.{
  dot_dot, starts_slash, elements, walk, path_of, with_slashes, clean, join,
}
use mirrortools.FilePaths.Cleaning.{NoSlash, All-reverse_aux}
use mirrortools.FilePaths.Joining.{IsName}
use mirrortools.FilePaths.Below.{IsWithin}
use mirrortools.NetUrl.{NetUrl}
use mirrortools.Git.{local_path, parse_source, clone_dir}
use mirrortools.Git.Ending.{split_trimmed}
use mirrortools.Git.Paths.{
  AreAbove, IsTrimmed, IsCloneSource, walk_above, step_up, parse_source-IsCloneSource,
  join_host_path,
}

reverse_middle :
    (names : List Text) (top : Text) (stack : List Text)
    → reverse (names ++ (top ∷ stack)) ≡ reverse stack ++ (top ∷ reverse names)
reverse_middle names top stack =
    reverse-append names (top ∷ stack)
    ∙ ap (λ (l : List Text). l ++ reverse names) (reverse-append (top ∷ []) stack)
    ∙ append_assoc (reverse stack) (top ∷ []) (reverse names)

NoSlash-names : (xs : List Text) → All IsName xs → All NoSlash xs
NoSlash-names [] h = tt
NoSlash-names (x ∷ xs) h = (h.0.0.0, NoSlash-names xs h.1)

join-AreAbove :
    (base host path : Text)
    → base ≢ []
    → IsName host
    → AreAbove host
        (reverse (elements base))
        (walk (starts_slash base) (host ∷ reverse (elements base)) (split slash path))
    → IsWithin base host (join (base ∷ host ∷ path ∷ []))
join-AreAbove base host path h k (names, walked, all) = (
  reverse names,
  join_host_path base host path h k
      ∙ ap (λ (l : List Text). path_of (starts_slash base) (reverse l)) walked
      ∙ ap (path_of (starts_slash base)) (
          reverse_middle names host (reverse (elements base))
          ∙ ap (λ (l : List Text). l ++ (host ∷ reverse names)) (reverse-reverse (elements base))),
  (k, All-reverse_aux IsName names [] all tt),
)

trimmed-AreAbove :
    (base host path : Text)
    → IsTrimmed path
    → path ≢ dot_dot
    → AreAbove host
        (reverse (elements base))
        (walk (starts_slash base) (host ∷ reverse (elements base)) (split slash path))
trimmed-AreAbove base host path (x, xs, shape, names) d =
    subst
      (λ (l : List Text).
        AreAbove host (reverse (elements base))
          (walk (starts_slash base) (host ∷ reverse (elements base)) l))
      (sym (ap (split slash) shape ∙ split_trimmed x xs (NoSlash-names (x ∷ xs) names)))
      (walk_above (starts_slash base) host x xs [] (reverse (elements base)) tt names
        (λ _ z. d (shape ∙ ap with_slashes z ∙ (unfold with_slashes in refl))))

join_dots :
    (base host : Text) → base ≢ [] → IsName host → join (base ∷ host ∷ dot_dot ∷ []) ≡ clean base
unfolding walk split clean
join_dots base host h k =
    join_host_path base host dot_dot h k
    ∙ ap (λ (l : List Text). path_of (starts_slash base) (reverse l))
        (step_up (starts_slash base) host (reverse (elements base)) k)
    ∙ ap (path_of (starts_slash base)) (reverse-reverse (elements base))

clone_dir-contained :
    (dest_dir p : Text) (o : Option (Text × Text))
    → dest_dir ≢ []
    → ((found : Text × Text) → o ≡ some found → IsCloneSource found)
    → clone_dir dest_dir o ≡ some p
    → (found : Text × Text) × (o ≡ some found)
      × (found.1 ≢ dot_dot → IsWithin dest_dir found.0 p)
      × (found.1 ≡ dot_dot → p ≡ clean dest_dir)
unfolding clone_dir
clone_dir-contained dest_dir p none h source e = cc
clone_dir-contained dest_dir p (some (host, path)) h source e =
    let found = source (host, path) refl in
    let here = some_eq e in
    (
      (host, path),
      refl,
      (λ d. subst (IsWithin dest_dir host) here (
          join-AreAbove dest_dir host path h found.0
            (trimmed-AreAbove dest_dir host path found.1 d))),
      (λ d.
          sym here
          ∙ ap (λ (z : Text). join (dest_dir ∷ host ∷ z ∷ [])) d
          ∙ join_dots dest_dir host h found.0),
    )

-- Into a destination that is not empty, a clone directory is that of a host and a path which
-- parseSource has found: the directory of the host, or one below it with no step up, unless the
-- path is the name with two dots; then it is the destination itself.
pub local_path-parse_source :
    (net : NetUrl) (dest_dir source p : Text)
    → dest_dir ≢ []
    → local_path net dest_dir source ≡ some p
    → (found : Text × Text) × (parse_source net source ≡ some found)
      × (found.1 ≢ dot_dot → IsWithin dest_dir found.0 p)
      × (found.1 ≡ dot_dot → p ≡ clean dest_dir)
unfolding local_path
local_path-parse_source net dest_dir source p h e =
    clone_dir-contained dest_dir p (parse_source net source) h
      (parse_source-IsCloneSource net source) e

-- ===== src/Registry/Subdirs.antt =====
-- Where the directory that SafeName names for a source comes to lie.
use mathlib.Core.List.{reverse}
use mathlib.Core.Path.{subst}
use mirrortools.Prelude.{◌≡◌, ◌≢◌, refl, sym, ap, ◌∙◌, List, [], ◌∷◌, ◌++◌, Text, slash}
use mirrortools.FilePaths.{starts_slash, elements, path_of, with_slashes, join}
use mirrortools.FilePaths.Joining.{
  Adds, IsName, append-Adds, name-Adds, join-Adds, starts_slash_part,
}
use mirrortools.Registry.{safe_id, safe_name}
use mirrortools.Registry.Detection.{IsElement, safe_id-IsElement}

IsName-IsElement : (s : Text) → IsElement s → IsName s
IsName-IsElement s h = ((h.0, h.1, h.2), h.3)

elements_name : (x : Text) → IsName x → elements x ≡ x ∷ []
unfolding elements
elements_name x h = ap reverse (name-Adds x h (starts_slash x) [])

-- Two names that are joined.
join_two : (x y : Text) → IsName x → IsName y → join (x ∷ y ∷ []) ≡ x ++ (slash ∷ y)
unfolding with_slashes path_of
join_two x y h k =
    join-Adds x y [] (y ∷ []) h.0.1 (name-Adds y k)
    ∙ ap (λ (l : List Text). path_of (starts_slash x) (l ++ (y ∷ []))) (elements_name x h)
    ∙ rw (starts_slash_part x h.0.0 h.0.1) refl

-- Below a destination that is not empty, and for a method that is a path element, the directory
-- that SafeName names for any identifier is two elements down: the method, and one that is neither
-- empty nor a step up.
pub join-safe_name :
    (dest method id : Text)
    → dest ≢ []
    → IsName method
    → IsName (safe_id id)
      × (join (dest ∷ safe_name method id ∷ [])
          ≡ path_of (starts_slash dest) (elements dest ++ (method ∷ safe_id id ∷ [])))
unfolding safe_name with_slashes
join-safe_name dest method id h k =
    let element = IsName-IsElement (safe_id id) (safe_id-IsElement id) in
    (
      element,
      join-Adds dest (safe_name method id) [] (method ∷ safe_id id ∷ []) h (
          subst (λ (t : Text). Adds t (method ∷ safe_id id ∷ []))
            (sym (join_two method (safe_id id) k element))
            (append-Adds method (safe_id id) (method ∷ []) (safe_id id ∷ []) (name-Adds method k)
              (name-Adds (safe_id id) element))),
    )

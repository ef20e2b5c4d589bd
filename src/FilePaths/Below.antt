-- ===== src/FilePaths/Below.antt =====
-- Paths below a base: a host's directory in a destination, and what a server's path names in it.
use mirrortools.Prelude.{
  ◌≡◌, ◌≢◌, false, ◌||◌, List, [], ◌∷◌, ◌++◌, ◌==◌, nat_has_eq, arith, Text, text_has_eq,
  text_eq_iff, slash, All, contains,
}
use mirrortools.FilePaths.{dot, dot_dot, starts_slash, elements, path_of, with_slashes, clean, join}
use mirrortools.FilePaths.Cleaning.{NoSlash, elements-AreClean}
use mirrortools.FilePaths.Joining.{
  Adds, IsName, IsName-AreClean, append-Adds, name-Adds, path_of-Adds, join-Adds,
}

-- A path of a name below a base, and of further names below that, if there are any; none of them is
-- a step up.
abbrev pub IsWithin : Text → Text → Text → Type 0
IsWithin base top p =
    (names : List Text) × (p ≡ path_of (starts_slash base) (elements base ++ (top ∷ names)))
    × All IsName (top ∷ names)

NoSlash-contains : (s : Text) → contains s slash ≡ false → NoSlash s
unfolding contains
NoSlash-contains [] h = tt
NoSlash-contains (c ∷ s) h = (ground (arith, h), NoSlash-contains s (ground (arith, h)))

-- A host that is no path of its own is a name.
pub usable-IsName :
    (host : Text)
    → (host == [] || host == dot || host == dot_dot || contains host slash || contains host b'\\')
      ≡ false
    → IsName host
usable-IsName host h = (
  (
    NoSlash-contains host (ground (arith, h)),
    (λ e. ground (arith, h, e, text_eq_iff host [])),
    (λ e. ground (arith, h, e, text_eq_iff host dot)),
  ),
  (λ e. ground (arith, h, e, text_eq_iff host dot_dot)),
)

IsName-elements : (s : Text) → All IsName (elements (slash ∷ s))
IsName-elements s = IsName-AreClean (elements (slash ∷ s)) (elements-AreClean (slash ∷ s))

clean_rooted-Adds : (s : Text) → Adds (clean (slash ∷ s)) (elements (slash ∷ s))
unfolding clean
clean_rooted-Adds s = path_of-Adds (elements (slash ∷ s)) (elements-AreClean (slash ∷ s))

below-Adds :
    (top s : Text)
    → IsName top
    → Adds (with_slashes (top ∷ clean (slash ∷ s) ∷ [])) (top ∷ elements (slash ∷ s))
unfolding with_slashes
below-Adds top s k =
    append-Adds top (clean (slash ∷ s)) (top ∷ []) (elements (slash ∷ s)) (name-Adds top k)
      (clean_rooted-Adds s)

-- A cleaned rooted path that is joined to a name below a base stands below that name.
pub join-IsWithin :
    (base top s : Text)
    → base ≢ []
    → IsName top
    → IsWithin base top (join (base ∷ top ∷ clean (slash ∷ s) ∷ []))
join-IsWithin base top s h k = (
  elements (slash ∷ s),
  join-Adds base top (clean (slash ∷ s) ∷ []) (top ∷ elements (slash ∷ s)) h (below-Adds top s k),
  (k, IsName-elements s),
)

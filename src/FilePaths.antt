-- ===== src/FilePaths.antt =====
-- What the program uses of the packages path and path/filepath, on Unix: Clean, Join, Rel and
-- IsLocal. Clean works on the elements between the slashes with a stack, whose top is its head.
use mathlib.Core.List.{reverse}
pub mod Cleaning
pub mod Joining
pub mod Below
use mirrortools.Prelude.{
  Bool, true, false, ◌&&◌, ◌||◌, not, Option, none, some, List, [], ◌∷◌, ◌++◌, if◌then◌else◌, ◌==◌,
  nat_eq, Text, codes, text_has_eq, slash, split,
}

abbrev pub dot : Text
dot = b'.' ∷ []

abbrev pub dot_dot : Text
dot_dot = b'.' ∷ b'.' ∷ []

abbrev pub starts_slash : Text → Bool
starts_slash [] = false
starts_slash (c ∷ s) = nat_eq c slash

-- One element up: of a rooted path, the root has no parent.
unfoldable pub go_up : Bool → List Text → List Text
go_up rooted [] = if rooted then [] else dot_dot ∷ []
go_up rooted (x ∷ xs) = if x == dot_dot then dot_dot ∷ x ∷ xs else xs

unfoldable pub step : Bool → List Text → Text → List Text
unfolding go_up
step rooted stack part =
    if part == [] || part == dot
    then stack
    else if part == dot_dot
    then go_up rooted stack
    else part ∷ stack

unfoldable pub walk : Bool → List Text → List Text → List Text
unfolding step
walk rooted stack [] = stack
walk rooted stack (part ∷ parts) = walk rooted (step rooted stack part) parts

-- The elements of a cleaned path.
unfoldable pub elements : Text → List Text
unfolding walk split
elements s = reverse (walk (starts_slash s) [] (split slash s))

-- strings.Join(parts, "/")
unfoldable pub with_slashes : List Text → Text
with_slashes [] = []
with_slashes (x ∷ []) = x
with_slashes (x ∷ y ∷ parts) = x ++ (slash ∷ with_slashes (y ∷ parts))

-- A cleaned path, of its elements.
unfoldable pub path_of : Bool → List Text → Text
unfolding with_slashes
path_of true parts = slash ∷ with_slashes parts
path_of false [] = dot
path_of false (x ∷ parts) = with_slashes (x ∷ parts)

-- path.Clean and filepath.Clean
unfoldable pub clean : Text → Text
unfolding path_of elements
clean s = path_of (starts_slash s) (elements s)

-- filepath.Join
unfoldable pub join : List Text → Text
unfolding clean with_slashes
join [] = []
join (x ∷ parts) =
    let rest = join parts in if x == [] then rest else clean (with_slashes (x ∷ parts))

-- What is left of two lists after the elements that they share in front.
unfoldable pub strip_common : List Text → List Text → List Text × List Text
strip_common [] ys = ([], ys)
strip_common (x ∷ xs) [] = (x ∷ xs, [])
strip_common (x ∷ xs) (y ∷ ys) =
    let rest = strip_common xs ys in if x == y then rest else (x ∷ xs, y ∷ ys)

ups : List Text → List Text
ups [] = []
ups (x ∷ xs) = dot_dot ∷ ups xs

leads_up : List Text → Bool
leads_up [] = false
leads_up (x ∷ xs) = x == dot_dot

abbrev same_bool : Bool → Bool → Bool
same_bool true b = b
same_bool false b = not b

-- The elements of filepath.Rel(base, target); none where it fails.
unfoldable pub relative : Text → Text → Option (List Text)
unfolding elements strip_common ups leads_up
relative base target =
    let (b, t) = strip_common (elements base) (elements target) in
    if same_bool (starts_slash base) (starts_slash target)
    then (if leads_up b then none else some (ups b ++ t))
    else none

-- filepath.IsLocal
unfoldable pub is_local : Text → Bool
unfolding elements leads_up
is_local s = not (s == []) && not (starts_slash s) && not (leads_up (elements s))

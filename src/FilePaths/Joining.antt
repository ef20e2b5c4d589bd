-- ===== src/FilePaths/Joining.antt =====
-- Join and Rel on cleaned paths: what is joined below a base stands below it.
use mathlib.Core.List.{
  reverse, reverse_aux, reverse_aux-eq, reverse-append, reverse-reverse, append_assoc,
}
use mirrortools.Prelude.{
  ◌≡◌, ◌≢◌, refl, sym, ap, ◌∙◌, Bool, true, false, List, [], ◌∷◌, ◌++◌, ◌==◌, nat_eq, arith, Text,
  text_has_eq, text_eq_iff, slash, split, All,
}
use mirrortools.FilePaths.{
  dot, dot_dot, starts_slash, step, walk, elements, with_slashes, path_of, clean, join,
}
use mirrortools.FilePaths.Cleaning.{
  NoSlash, IsPart, IsClean, AreClean, IsPart-AreClean, split-append, split-with_slashes,
  split-NoSlash, walk-append, walk_clean, NoSlash-AreClean, elements-AreClean, All-reverse_aux,
}

-- An element's name, which is no step up.
abbrev pub IsName : Text → Type 0
IsName s = IsPart s × (s ≢ dot_dot)

starts_slash-NoSlash : (s t : Text) → NoSlash s → s ≢ [] → starts_slash (s ++ t) ≡ false
starts_slash-NoSlash [] t h k = absurd (k refl)
starts_slash-NoSlash (c ∷ s) t h k = h.0

pub starts_slash_part : (s : Text) → NoSlash s → s ≢ [] → starts_slash s ≡ false
starts_slash_part [] h k = absurd (k refl)
starts_slash_part (c ∷ s) h k = h.0

step_skip : (rooted : Bool) (stack : List Text) → step rooted stack [] ≡ stack
unfolding step
step_skip rooted stack = refl

step-dot : (rooted : Bool) (stack : List Text) → step rooted stack dot ≡ stack
unfolding step
step-dot rooted stack = refl

pub starts_slash-path_of :
    (rooted : Bool) (parts : List Text)
    → AreClean rooted parts
    → starts_slash (path_of rooted parts) ≡ rooted
unfolding path_of with_slashes
starts_slash-path_of true parts h = refl
starts_slash-path_of false [] h = refl
starts_slash-path_of false (x ∷ []) h =
    let part = (IsPart-AreClean false (x ∷ []) h).0 in starts_slash_part x part.0 part.1
starts_slash-path_of false (x ∷ y ∷ parts) h =
    let part = (IsPart-AreClean false (x ∷ y ∷ parts) h).0 in starts_slash-NoSlash x _ part.0 part.1

walk-path_of :
    (rooted : Bool) (parts : List Text)
    → AreClean rooted parts
    → walk rooted [] (split slash (path_of rooted parts)) ≡ reverse parts
unfolding path_of walk split
walk-path_of true [] h = refl
walk-path_of true (x ∷ parts) h =
    ap (walk true []) (split-append [] (with_slashes (x ∷ parts)))
    ∙ (rw (split-with_slashes x parts (NoSlash-AreClean true (x ∷ parts) h))
        (walk_clean true (x ∷ parts) h))
walk-path_of false [] h = refl
walk-path_of false (x ∷ parts) h =
    rw (split-with_slashes x parts (NoSlash-AreClean false (x ∷ parts) h))
      (walk_clean false (x ∷ parts) h)

pub elements-path_of :
    (rooted : Bool) (parts : List Text)
    → AreClean rooted parts
    → elements (path_of rooted parts) ≡ parts
unfolding elements
elements-path_of rooted parts h =
    rw (starts_slash-path_of rooted parts h)
      (rw (walk-path_of rooted parts h) (reverse-reverse parts))

pub elements-clean : (s : Text) → elements (clean s) ≡ elements s
unfolding clean
elements-clean s = elements-path_of (starts_slash s) (elements s) (elements-AreClean s)

pub starts_slash-clean : (s : Text) → starts_slash (clean s) ≡ starts_slash s
unfolding clean
starts_slash-clean s = starts_slash-path_of (starts_slash s) (elements s) (elements-AreClean s)

clean_lem : (s : Text) → clean s ≡ path_of (starts_slash s) (elements s)
unfolding clean
clean_lem s = refl

-- Cleaning a cleaned path changes nothing.
pub clean-clean : (s : Text) → clean (clean s) ≡ clean s
clean-clean s =
    clean_lem (clean s) ∙ (rw (starts_slash-clean s) (rw (elements-clean s) (sym (clean_lem s))))

-- A text that adds elements to whatever path it is joined to.
abbrev pub Adds : Text → List Text → Type 0
Adds t names =
    (rooted : Bool) (stack : List Text) → walk rooted stack (split slash t) ≡ reverse names ++ stack

pub append-Adds :
    (s t : Text) (xs ys : List Text) → Adds s xs → Adds t ys → Adds (s ++ (slash ∷ t)) (xs ++ ys)
append-Adds s t xs ys h k rooted stack =
    ap (walk rooted stack) (split-append s t)
    ∙ walk-append rooted stack (split slash s) (split slash t)
    ∙ ap (λ (l : List Text). walk rooted l (split slash t)) (h rooted stack)
    ∙ k rooted (reverse xs ++ stack)
    ∙ sym (append_assoc (reverse ys) (reverse xs) stack)
    ∙ ap (λ (l : List Text). l ++ stack) (sym (reverse-append xs ys))

pub step_name :
    (rooted : Bool) (stack : List Text) (x : Text) → IsName x → step rooted stack x ≡ x ∷ stack
unfolding step
step_name rooted stack x h =
    ground (arith, h.0.1, h.0.2, h.1, text_eq_iff x [], text_eq_iff x dot, text_eq_iff x dot_dot)

walk_names_aux :
    (rooted : Bool) (stack names : List Text)
    → All IsName names
    → walk rooted stack names ≡ reverse_aux names stack
unfolding walk
walk_names_aux rooted stack [] h = refl
walk_names_aux rooted stack (x ∷ xs) h =
    rw (step_name rooted stack x h.0) (walk_names_aux rooted (x ∷ stack) xs h.1)

walk_names :
    (rooted : Bool) (stack names : List Text)
    → All IsName names
    → walk rooted stack names ≡ reverse names ++ stack
walk_names rooted stack names h = walk_names_aux rooted stack names h ∙ reverse_aux-eq names stack

pub name-Adds : (x : Text) → IsName x → Adds x (x ∷ [])
name-Adds x h rooted stack =
    ap (walk rooted stack) (split-NoSlash x h.0.0) ∙ walk_names rooted stack (x ∷ []) (h, tt)

IsName-IsClean : (stack : List Text) → IsClean true stack → All IsName stack
IsName-IsClean [] h = tt
IsName-IsClean (x ∷ xs) h = ((h.0, λ e. cc (h.1 e).0), IsName-IsClean xs h.2)

pub IsName-AreClean : (parts : List Text) → AreClean true parts → All IsName parts
IsName-AreClean parts h =
    rw (← reverse-reverse parts)
      (All-reverse_aux IsName (reverse parts) [] (IsName-IsClean (reverse parts) h) tt)

-- A cleaned rooted path.
pub path_of-Adds : (parts : List Text) → AreClean true parts → Adds (path_of true parts) parts
unfolding path_of split walk
path_of-Adds [] h rooted stack = refl
path_of-Adds (x ∷ parts) h rooted stack =
    ap (walk rooted stack) (split-append [] (with_slashes (x ∷ parts)))
    ∙ (rw (split-with_slashes x parts (NoSlash-AreClean true (x ∷ parts) h))
        (walk_names rooted stack (x ∷ parts) (IsName-AreClean (x ∷ parts) h)))

elements-Adds :
    (base t : Text) (names : List Text)
    → base ≢ []
    → Adds t names
    → elements (base ++ (slash ∷ t)) ≡ elements base ++ names
unfolding elements
elements-Adds [] t names h k = absurd (h refl)
elements-Adds (c ∷ base) t names h k =
    let rooted = nat_eq c slash in
    let stack = walk rooted [] (split slash (c ∷ base)) in
    ap (λ (l : List Text). reverse (walk rooted [] l)) (split-append (c ∷ base) t)
    ∙ ap reverse (walk-append rooted [] (split slash (c ∷ base)) (split slash t) ∙ k rooted stack)
    ∙ reverse-append (reverse names) stack
    ∙ ap (λ (l : List Text). reverse stack ++ l) (reverse-reverse names)

starts_slash-append : (s t : Text) → s ≢ [] → starts_slash (s ++ t) ≡ starts_slash s
starts_slash-append [] t h = absurd (h refl)
starts_slash-append (c ∷ s) t h = refl

not_empty : (s : Text) → s ≢ [] → (s == []) ≡ false
not_empty [] h = absurd (h refl)
not_empty (c ∷ s) h = refl

-- What is joined to a base stands below it.
pub join-Adds :
    (base y : Text) (ys names : List Text)
    → base ≢ []
    → Adds (with_slashes (y ∷ ys)) names
    → join (base ∷ y ∷ ys) ≡ path_of (starts_slash base) (elements base ++ names)
unfolding join with_slashes
join-Adds base y ys names h k = rw (not_empty base h) (
    clean_lem (base ++ (slash ∷ with_slashes (y ∷ ys))) ∙ (λ i.
      path_of (starts_slash-append base (slash ∷ with_slashes (y ∷ ys)) h i)
        (elements-Adds base (with_slashes (y ∷ ys)) names h k i)))

elements_joined :
    (base t : Text)
    → base ≢ []
    → elements (base ++ (slash ∷ t))
      ≡ reverse (walk (starts_slash base) (reverse (elements base)) (split slash t))
unfolding elements
elements_joined [] t h = absurd (h refl)
elements_joined (c ∷ base) t h =
    let rooted = nat_eq c slash in
    let stack = walk rooted [] (split slash (c ∷ base)) in
    ap (λ (l : List Text). reverse (walk rooted [] l)) (split-append (c ∷ base) t)
    ∙ ap reverse (walk-append rooted [] (split slash (c ∷ base)) (split slash t))
    ∙ ap (λ (l : List Text). reverse (walk rooted l (split slash t))) (sym (reverse-reverse stack))

-- What is joined is walked from the elements of the base.
pub join-walk :
    (base y : Text) (ys : List Text)
    → base ≢ []
    → join (base ∷ y ∷ ys)
      ≡ path_of (starts_slash base) (
          reverse (
            walk
              (starts_slash base)
              (reverse (elements base))
              (split slash (with_slashes (y ∷ ys)))))
unfolding join with_slashes
join-walk base y ys h = rw (not_empty base h) (
    clean_lem (base ++ (slash ∷ with_slashes (y ∷ ys))) ∙ (λ i.
      path_of (starts_slash-append base (slash ∷ with_slashes (y ∷ ys)) h i)
        (elements_joined base (with_slashes (y ∷ ys)) h i)))

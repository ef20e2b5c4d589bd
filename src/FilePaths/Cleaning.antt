-- ===== src/FilePaths/Cleaning.antt =====
-- Cleaning: what the elements of a cleaned path are, and that cleaning it again changes nothing.
use mathlib.Core.List.{reverse, reverse_aux, reverse-append, reverse-reverse}
use mirrortools.Prelude.{
  ◌≡◌, ◌≢◌, refl, ap, ◌∙◌, Bool, true, false, ◌||◌, List, [], ◌∷◌, ◌++◌, ◌==◌, nat_eq, arith, Text,
  text_has_eq, text_eq_iff, slash, split, split_from, All, All-impl, Bool-cases, inl, inr,
}
use mirrortools.FilePaths.{dot, dot_dot, starts_slash, go_up, step, walk, elements, with_slashes}

abbrev pub NoSlash : Text → Type 0
NoSlash s = All (λ c. nat_eq c slash ≡ false) s

-- What may stand in a cleaned path: ".." too.
abbrev pub IsPart : Text → Type 0
IsPart s = NoSlash s × (s ≢ []) × (s ≢ dot)

-- A stack of a cleaned path: ".." stands only where the path is relative, and above nothing else.
abbrev pub IsClean : Bool → List Text → Type 0
IsClean rooted [] = Unit
IsClean rooted (x ∷ xs) =
    IsPart x × (x ≡ dot_dot → (rooted ≡ false) × All (λ y. y ≡ dot_dot) xs) × IsClean rooted xs

split_from-append :
    (word a b : Text)
    → split_from slash word (a ++ (slash ∷ b)) ≡ split_from slash word a ++ split_from slash [] b
unfolding split_from
split_from-append word [] b = refl
split_from-append word (x ∷ xs) b =
    ground (arith, split_from-append [] xs b, split_from-append (x ∷ word) xs b)

pub split-append : (a b : Text) → split slash (a ++ (slash ∷ b)) ≡ split slash a ++ split slash b
unfolding split
split-append a b = split_from-append [] a b

split_from_word : (word s : Text) → NoSlash s → split_from slash word s ≡ reverse_aux word s ∷ []
unfolding split_from
split_from_word word [] h = refl
split_from_word word (x ∷ xs) h = rw h.0 (split_from_word (x ∷ word) xs h.1)

-- A text with no slash is its own only part.
pub split-NoSlash : (s : Text) → NoSlash s → split slash s ≡ s ∷ []
unfolding split
split-NoSlash s h = split_from_word [] s h

NoSlash-reverse_aux : (s t : Text) → NoSlash s → NoSlash t → NoSlash (reverse_aux s t)
NoSlash-reverse_aux [] t h k = k
NoSlash-reverse_aux (x ∷ xs) t h k = NoSlash-reverse_aux xs (x ∷ t) h.1 (h.0, k)

pub NoSlash-reverse : (s : Text) → NoSlash s → NoSlash (reverse s)
NoSlash-reverse s h = NoSlash-reverse_aux s [] h tt

NoSlash-split_from : (word s : Text) → NoSlash word → All NoSlash (split_from slash word s)
unfolding split_from
NoSlash-split_from word [] h = (NoSlash-reverse_aux word [] h tt, tt)
NoSlash-split_from word (x ∷ xs) h = elim (Bool-cases (nat_eq x slash)) [
  | inl e ↦ rw e (NoSlash-reverse_aux word [] h tt, NoSlash-split_from [] xs tt)
  | inr e ↦ rw e (NoSlash-split_from (x ∷ word) xs (e, h))
]

pub NoSlash-split : (s : Text) → All NoSlash (split slash s)
unfolding split
NoSlash-split s = NoSlash-split_from [] s tt

pub walk-append :
    (rooted : Bool) (stack xs ys : List Text)
    → walk rooted stack (xs ++ ys) ≡ walk rooted (walk rooted stack xs) ys
unfolding walk
walk-append rooted stack [] ys = refl
walk-append rooted stack (x ∷ xs) ys = walk-append rooted (step rooted stack x) xs ys

dot_dot-IsPart : IsPart dot_dot
dot_dot-IsPart = ((refl, (refl, tt)), (λ e. cc), (λ e. cc))

go_up-IsClean :
    (rooted : Bool) (stack : List Text) → IsClean rooted stack → IsClean rooted (go_up rooted stack)
unfolding go_up
go_up-IsClean true [] h = tt
go_up-IsClean false [] h = (dot_dot-IsPart, (λ e. (refl, tt)), tt)
go_up-IsClean rooted (x ∷ xs) h = elim (Bool-cases (x == dot_dot)) [
  | inl e ↦
      let up = (text_eq_iff x dot_dot).0 e in
      rw e (dot_dot-IsPart, (λ _. ((h.1 up).0, (up, (h.1 up).1))), h)
  | inr e ↦ rw e h.2
]

pub step-IsClean :
    (rooted : Bool) (stack : List Text) (part : Text)
    → IsClean rooted stack
    → NoSlash part
    → IsClean rooted (step rooted stack part)
unfolding step
step-IsClean rooted stack part h k = elim (Bool-cases (part == [] || part == dot)) [
  | inl e ↦ rw e h
  | inr e ↦ elim (Bool-cases (part == dot_dot)) [
    | inl d ↦ rw e (rw d (go_up-IsClean rooted stack h))
    | inr d ↦ rw e (
        rw d (
          (
            k,
            (λ z. ground (arith, e, z, text_eq_iff part [])),
            (λ z. ground (arith, e, z, text_eq_iff part dot)),
          ),
          (λ z. ground (arith, d, z, text_eq_iff part dot_dot)),
          h,
        ))
  ]
]

pub walk-IsClean :
    (rooted : Bool) (stack parts : List Text)
    → IsClean rooted stack
    → All NoSlash parts
    → IsClean rooted (walk rooted stack parts)
unfolding walk
walk-IsClean rooted stack [] h k = h
walk-IsClean rooted stack (x ∷ xs) h k =
    walk-IsClean rooted (step rooted stack x) xs (step-IsClean rooted stack x h k.0) k.1

go_up_dots :
    (rooted : Bool) (stack : List Text)
    → rooted ≡ false
    → All (λ y. y ≡ dot_dot) stack
    → go_up rooted stack ≡ dot_dot ∷ stack
unfolding go_up
go_up_dots rooted [] e h = rw e refl
go_up_dots rooted (x ∷ xs) e h = ground (arith, text_eq_iff x dot_dot, h.0)

-- What is clean is pushed as it is.
pub step_clean :
    (rooted : Bool) (stack : List Text) (x : Text)
    → IsClean rooted (x ∷ stack)
    → step rooted stack x ≡ x ∷ stack
unfolding step
step_clean rooted stack x h = elim (Bool-cases (x == dot_dot)) [
  | inl e ↦
      let up = (text_eq_iff x dot_dot).0 e in
      ground (
        arith,
        go_up_dots rooted stack (h.1 up).0 (h.1 up).1,
        up,
        text_eq_iff x [],
        text_eq_iff x dot,
        h.0.1,
        h.0.2,
      )
  | inr e ↦ ground (arith, text_eq_iff x [], text_eq_iff x dot, h.0.1, h.0.2)
]

pub walk-reverse :
    (rooted : Bool) (stack : List Text)
    → IsClean rooted stack
    → walk rooted [] (reverse stack) ≡ stack
walk-reverse rooted [] h = unfold walk in refl
walk-reverse rooted (x ∷ xs) h =
    ap (walk rooted []) (reverse-append (x ∷ []) xs)
    ∙ walk-append rooted [] (reverse xs) (x ∷ [])
    ∙ (rw (walk-reverse rooted xs h.2) (unfold walk in step_clean rooted xs x h))

pub split-with_slashes :
    (x : Text) (parts : List Text)
    → All NoSlash (x ∷ parts)
    → split slash (with_slashes (x ∷ parts)) ≡ x ∷ parts
unfolding with_slashes
split-with_slashes x [] h = split-NoSlash x h.0
split-with_slashes x (y ∷ parts) h =
    split-append x (with_slashes (y ∷ parts))
    ∙ (rw (split-NoSlash x h.0) (ap (λ l. x ∷ l) (split-with_slashes y parts h.1)))

IsPart-IsClean : (rooted : Bool) (stack : List Text) → IsClean rooted stack → All IsPart stack
IsPart-IsClean rooted [] h = tt
IsPart-IsClean rooted (x ∷ xs) h = (h.0, IsPart-IsClean rooted xs h.2)

pub All-reverse_aux :
    (P : Text → Type 0) (xs ys : List Text) → All P xs → All P ys → All P (reverse_aux xs ys)
All-reverse_aux P [] ys h k = k
All-reverse_aux P (x ∷ xs) ys h k = All-reverse_aux P xs (x ∷ ys) h.1 (h.0, k)

-- The elements of a cleaned path, in their order.
abbrev pub AreClean : Bool → List Text → Type 0
AreClean rooted parts = IsClean rooted (reverse parts)

pub elements-AreClean : (s : Text) → AreClean (starts_slash s) (elements s)
unfolding elements
elements-AreClean s =
    rw (reverse-reverse (walk (starts_slash s) [] (split slash s)))
      (walk-IsClean (starts_slash s) [] (split slash s) tt (NoSlash-split s))

pub IsPart-AreClean : (rooted : Bool) (parts : List Text) → AreClean rooted parts → All IsPart parts
IsPart-AreClean rooted parts h =
    rw (← reverse-reverse parts)
      (All-reverse_aux IsPart (reverse parts) [] (IsPart-IsClean rooted (reverse parts) h) tt)

pub NoSlash-AreClean :
    (rooted : Bool) (parts : List Text) → AreClean rooted parts → All NoSlash parts
NoSlash-AreClean rooted parts h =
    All-impl IsPart NoSlash parts (λ x k. k.0) (IsPart-AreClean rooted parts h)

pub walk_clean :
    (rooted : Bool) (parts : List Text)
    → AreClean rooted parts
    → walk rooted [] parts ≡ reverse parts
walk_clean rooted parts h = rw (reverse-reverse parts) at (walk-reverse rooted (reverse parts) h)

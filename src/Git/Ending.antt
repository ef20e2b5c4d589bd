-- ===== src/Git/Ending.antt =====
-- The loss of the ending ".git": only a path's last element can have it.
use mathlib.Core.List.{reverse, reverse-append, reverse-reverse, append_assoc}
use mirrortools.Prelude.{
  ◌≡◌, refl, sym, ap, ◌∙◌, true, List, [], ◌∷◌, ◌++◌, if◌then◌else◌, arith, ℕ, Text, codes,
  text_has_eq, slash, split, All, Bool-cases, inl, inr, drop, has_prefix, has_suffix, trim_suffix,
  if_holds, zero, suc,
}
use mirrortools.FilePaths.{with_slashes}
use mirrortools.FilePaths.Cleaning.{NoSlash, split-with_slashes, NoSlash-reverse}

abbrev pub git : Text
git = codes ".git"

has_prefix-git :
    (s t : Text) → has_prefix (s ++ (slash ∷ t)) (reverse git) ≡ has_prefix s (reverse git)
unfolding has_prefix
has_prefix-git [] t = refl
has_prefix-git (a ∷ []) t = ground arith
has_prefix-git (a ∷ b ∷ []) t = ground arith
has_prefix-git (a ∷ b ∷ c ∷ []) t = ground arith
has_prefix-git (a ∷ b ∷ c ∷ d ∷ s) t = refl

drop-git :
    (s t : Text)
    → has_prefix s (reverse git) ≡ true
    → drop 4 (s ++ (slash ∷ t)) ≡ drop 4 s ++ (slash ∷ t)
unfolding has_prefix
drop-git [] t h = cc
drop-git (a ∷ []) t h = ground (arith, h)
drop-git (a ∷ b ∷ []) t h = ground (arith, h)
drop-git (a ∷ b ∷ c ∷ []) t h = ground (arith, h)
drop-git (a ∷ b ∷ c ∷ d ∷ s) t h = refl

reverse-slash :
    (a last : Text) → reverse (a ++ (slash ∷ last)) ≡ reverse last ++ (slash ∷ reverse a)
reverse-slash a last =
    reverse-append a (slash ∷ last)
    ∙ ap (λ (l : Text). l ++ reverse a) (reverse-append (slash ∷ []) last)
    ∙ append_assoc (reverse last) (slash ∷ []) (reverse a)

-- The loss of the ending, on the reversed text.
strip : Text → Text
strip r = if has_prefix r (reverse git) then drop 4 r else r

strip-append : (s t : Text) → strip (s ++ (slash ∷ t)) ≡ strip s ++ (slash ∷ t)
unfolding strip
strip-append s t = elim (Bool-cases (has_prefix s (reverse git))) [
  | inl e ↦ rw (has_prefix-git s t) (rw e (drop-git s t e))
  | inr e ↦ rw (has_prefix-git s t) (rw e refl)
]

trim_suffix-strip : (s : Text) → trim_suffix s git ≡ reverse (strip (reverse s))
unfolding trim_suffix strip
trim_suffix-strip s = elim (Bool-cases (has_prefix (reverse s) (reverse git))) [
  | inl e ↦ rw e refl
  | inr e ↦ rw e (sym (reverse-reverse s))
]

-- Only the last element can lose its ending.
pub trim_suffix-append :
    (a last : Text) → trim_suffix (a ++ (slash ∷ last)) git ≡ a ++ (slash ∷ trim_suffix last git)
trim_suffix-append a last =
    trim_suffix-strip (a ++ (slash ∷ last))
    ∙ ap (λ (l : Text). reverse (strip l)) (reverse-slash a last)
    ∙ ap reverse (strip-append (reverse last) (reverse a))
    ∙ reverse-slash (strip (reverse last)) (reverse a)
    ∙ ap (λ (l : Text). l ++ (slash ∷ reverse (strip (reverse last)))) (reverse-reverse a)
    ∙ ap (λ (l : Text). a ++ (slash ∷ l)) (sym (trim_suffix-strip last))

unfoldable pub trim_last : List Text → List Text
trim_last [] = []
trim_last (x ∷ []) = trim_suffix x git ∷ []
trim_last (x ∷ y ∷ ys) = x ∷ trim_last (y ∷ ys)

-- A list that has an item.
abbrev IsFull : List Text → Type 0
IsFull [] = ⊥
IsFull (x ∷ xs) = Unit

with_slashes_cons :
    (x : Text) (xs : List Text) → IsFull xs → with_slashes (x ∷ xs) ≡ x ++ (slash ∷ with_slashes xs)
unfolding with_slashes
with_slashes_cons x [] h = absurd h
with_slashes_cons x (y ∷ ys) h = refl

trim_last-IsFull : (x : Text) (xs : List Text) → IsFull (trim_last (x ∷ xs))
unfolding trim_last
trim_last-IsFull x [] = tt
trim_last-IsFull x (y ∷ ys) = tt

pub trim_suffix-with_slashes :
    (x : Text) (xs : List Text)
    → trim_suffix (with_slashes (x ∷ xs)) git ≡ with_slashes (trim_last (x ∷ xs))
trim_suffix-with_slashes x [] = unfold with_slashes in (unfold trim_last in refl)
trim_suffix-with_slashes x (y ∷ ys) =
    ap (λ (l : Text). trim_suffix l git) (with_slashes_cons x (y ∷ ys) tt)
    ∙ trim_suffix-append x (with_slashes (y ∷ ys))
    ∙ ap (λ (l : Text). x ++ (slash ∷ l)) (trim_suffix-with_slashes y ys)
    ∙ sym (unfold trim_last in with_slashes_cons x (trim_last (y ∷ ys)) (trim_last-IsFull y ys))

All-drop : (P : ℕ → Type 0) (n : ℕ) (s : Text) → All P s → All P (drop n s)
All-drop P zero s h = h
All-drop P (suc n) [] h = tt
All-drop P (suc n) (c ∷ s) h = All-drop P n s h.1

NoSlash-trim_suffix : (s : Text) → NoSlash s → NoSlash (trim_suffix s git)
unfolding trim_suffix
NoSlash-trim_suffix s h =
    if_holds NoSlash (has_suffix s git) _ s
      (λ _. NoSlash-reverse (drop 4 (reverse s)) (All-drop _ 4 (reverse s) (NoSlash-reverse s h)))
      (λ _. h)

pub NoSlash-trim_last : (xs : List Text) → All NoSlash xs → All NoSlash (trim_last xs)
unfolding trim_last
NoSlash-trim_last [] h = tt
NoSlash-trim_last (x ∷ []) h = (NoSlash-trim_suffix x h.0, tt)
NoSlash-trim_last (x ∷ y ∷ ys) h = (h.0, NoSlash-trim_last (y ∷ ys) h.1)

pub split_trimmed :
    (x : Text) (xs : List Text)
    → All NoSlash (x ∷ xs)
    → split slash (with_slashes (trim_last (x ∷ xs))) ≡ trim_last (x ∷ xs)
unfolding trim_last
split_trimmed x [] h = split-with_slashes (trim_suffix x git) [] (NoSlash-trim_last (x ∷ []) h)
split_trimmed x (y ∷ ys) h =
    split-with_slashes x (trim_last (y ∷ ys)) (NoSlash-trim_last (x ∷ y ∷ ys) h)

-- ===== src/Prelude/Texts.antt =====
-- Go's strings as lists of bytes, and what the program uses of the package strings. A text is read
-- as ASCII: bytes from 128 on are no spaces and no letters.
use Prim.Native.Nat.{ℕ, ◌+◌}
use Prim.Native.Char.{code}
use Prim.Native.String.{String}
use mathlib.Core.Path.{◌≡◌, refl}
use mathlib.Core.Logic.{◌↔◌}
use mathlib.Core.Bool.{Bool, true, false, ◌&&◌, ◌||◌}
use mathlib.Core.List.{List, [], ◌∷◌, ◌++◌, map, reverse}
use mathlib.Core.Option.{Option, none, some}
use native.Mathlib.Omega.{arith}
use mirrortools.Prelude.Tests.{if◌then◌else◌, nat_eq, ltb, leb}
use mirrortools.Prelude.Equality.{Eq, ◌==◌}
use mirrortools.Prelude.Lists.{length, drop}
use mirrortools.Prelude.Order.{IsWeakOrder}

abbrev pub Text : Type 0
Text = List ℕ

-- The bytes of a literal.
abbrev pub codes : String → Text
codes String.[] = []
codes (String.◌∷◌ c s) = code c ∷ codes s

abbrev pub text_eq : Text → Text → Bool
text_eq [] [] = true
text_eq [] (y ∷ ys) = false
text_eq (x ∷ xs) [] = false
text_eq (x ∷ xs) (y ∷ ys) = nat_eq x y && text_eq xs ys

text_eq_sound : (s t : Text) → text_eq s t ≡ true → s ≡ t
text_eq_sound [] [] h = refl
text_eq_sound [] (y ∷ ys) h = cc
text_eq_sound (x ∷ xs) [] h = cc
text_eq_sound (x ∷ xs) (y ∷ ys) h = ground (arith, text_eq_sound xs ys)

text_eq_self : (s : Text) → text_eq s s ≡ true
text_eq_self [] = refl
text_eq_self (x ∷ xs) = ground (arith, text_eq_self xs)

pub text_eq_iff : (s t : Text) → (text_eq s t ≡ true) ↔ (s ≡ t)
text_eq_iff s t = (text_eq_sound s t, λ e. rw e (text_eq_self t))

instance abbrev pub text_has_eq : Eq Text
text_has_eq = record { same = text_eq; same_iff = text_eq_iff }

-- The order of SQLite's BINARY collation: byte by byte, a prefix first.
abbrev pub text_lt : Text → Text → Bool
text_lt s [] = false
text_lt [] (y ∷ ys) = true
text_lt (x ∷ xs) (y ∷ ys) =
    let rest = text_lt xs ys in if ltb x y then true else if ltb y x then false else rest

text_lt_asym : (s t : Text) → text_lt s t ≡ true → text_lt t s ≡ false
text_lt_asym [] [] h = cc
text_lt_asym (x ∷ xs) [] h = cc
text_lt_asym [] (y ∷ ys) h = refl
text_lt_asym (x ∷ xs) (y ∷ ys) h = ground (arith, text_lt_asym xs ys)

text_lt_neg_trans : (s t u : Text) → text_lt s t ≡ false → text_lt t u ≡ false → text_lt s u ≡ false
text_lt_neg_trans s t [] h k = refl
text_lt_neg_trans s [] (z ∷ zs) h k = cc
text_lt_neg_trans [] (y ∷ ys) (z ∷ zs) h k = cc
text_lt_neg_trans (x ∷ xs) (y ∷ ys) (z ∷ zs) h k = ground (arith, text_lt_neg_trans xs ys zs)

pub text_lt-IsWeakOrder : IsWeakOrder text_lt
text_lt-IsWeakOrder = record { asym = text_lt_asym; neg_trans = text_lt_neg_trans }

-- strings.HasPrefix
unfoldable pub has_prefix : Text → Text → Bool
has_prefix s [] = true
has_prefix [] (y ∷ ys) = false
has_prefix (x ∷ xs) (y ∷ ys) = nat_eq x y && has_prefix xs ys

-- strings.Contains
unfoldable pub has_infix : Text → Text → Bool
unfolding has_prefix
has_infix [] p = has_prefix [] p
has_infix (x ∷ xs) p = has_prefix (x ∷ xs) p || has_infix xs p

unfoldable pub drop_while : (ℕ → Bool) → Text → Text
drop_while p [] = []
drop_while p (x ∷ xs) = let rest = drop_while p xs in if p x then rest else x ∷ xs

-- strings.TrimRight, for a set of bytes.
unfoldable pub trim_right : (ℕ → Bool) → Text → Text
unfolding drop_while
trim_right p s = reverse (drop_while p (reverse s))

abbrev pub is_space : ℕ → Bool
is_space c = nat_eq c 32 || (leb 9 c && leb c 13)

-- strings.TrimSpace
unfoldable pub trim_space : Text → Text
unfolding drop_while trim_right
trim_space s = trim_right is_space (drop_while is_space s)

abbrev pub slash : ℕ
slash = b'/'

-- strings.TrimSuffix(s, "/")
unfoldable pub trim_slash : Text → Text
trim_slash [] = []
trim_slash (x ∷ []) = if nat_eq x slash then [] else x ∷ []
trim_slash (x ∷ y ∷ ys) = x ∷ trim_slash (y ∷ ys)

-- strings.HasSuffix
unfoldable pub has_suffix : Text → Text → Bool
unfolding has_prefix
has_suffix s t = has_prefix (reverse s) (reverse t)

-- strings.TrimPrefix
unfoldable pub trim_prefix : Text → Text → Text
unfolding has_prefix
trim_prefix s p = if has_prefix s p then drop (length p) s else s

-- strings.TrimSuffix
unfoldable pub trim_suffix : Text → Text → Text
unfolding has_suffix
trim_suffix s p = if has_suffix s p then reverse (drop (length p) (reverse s)) else s

-- What stands before and after the last byte sep.
unfoldable pub cut_last : ℕ → Text → Option (Text × Text)
cut_last sep [] = none
cut_last sep (x ∷ xs) = elim (cut_last sep xs) [
  | some (before, after) ↦ some (x ∷ before, after)
  | none ↦ if nat_eq x sep then some ([], xs) else none
]

-- What stands before and after the first byte sep.
unfoldable pub cut_first : ℕ → Text → Option (Text × Text)
cut_first sep [] = none
cut_first sep (x ∷ xs) =
    let rest = cut_first sep xs in
    if nat_eq x sep
    then some ([], xs)
    else elim rest [ none ↦ none | some parts ↦ some (x ∷ parts.0, parts.1) ]

-- strings.ReplaceAll, of one byte.
unfoldable pub replace_byte : ℕ → Text → Text → Text
replace_byte old new [] = []
replace_byte old new (x ∷ xs) =
    let rest = replace_byte old new xs in if nat_eq x old then new ++ rest else x ∷ rest

fields_from : Text → Text → List Text
fields_from word [] = if word == [] then [] else reverse word ∷ []
fields_from word (x ∷ xs) =
    let cut = fields_from [] xs in
    let go = fields_from (x ∷ word) xs in
    if is_space x then (if word == [] then cut else reverse word ∷ cut) else go

-- strings.Fields
unfoldable pub fields : Text → List Text
unfolding fields_from
fields s = fields_from [] s

abbrev pub lower : ℕ → ℕ
lower c = if leb b'A' c && leb c b'Z' then c + 32 else c

-- strings.ToLower
unfoldable pub to_lower : Text → Text
to_lower = map lower

-- strings.EqualFold
unfoldable pub equal_fold : Text → Text → Bool
unfolding to_lower
equal_fold s t = text_eq (to_lower s) (to_lower t)

unfoldable pub split_from : ℕ → Text → Text → List Text
split_from sep word [] = reverse word ∷ []
split_from sep word (x ∷ xs) =
    let cut = reverse word ∷ split_from sep [] xs in
    let go = split_from sep (x ∷ word) xs in if nat_eq x sep then cut else go

-- strings.Split, by one byte.
unfoldable pub split : ℕ → Text → List Text
unfolding split_from
split sep s = split_from sep [] s

-- ===== src/Http/Rows.antt =====
-- The table urls of a crawl: its ids count from one, its URLs are distinct, and so no more rows than
-- there are URLs to find.
use mathlib.Core.Path.{subst}
use mirrortools.Prelude.{
  ℕ, suc, ◌+◌, ◌≤◌, ◌<◌, ◌≡◌, refl, ap, ◌∙◌, Bool, true, false, ◌&&◌, List, [], ◌∷◌, if◌then◌else◌,
  ◌==◌, ltb, nat_has_eq, some, arith, Text, text_has_eq, text_eq_iff, All, All-impl, All-zip,
  some_eq, if_holds, Bool-cases, inl, inr, contains, length,
}
use mirrortools.Http.{Row, upsert, update_row, is_pending}
use mirrortools.Http.Crawl.{next_pending}

-- The ids are the numbers that follow.
abbrev pub IsNumbered : ℕ → List Row → Type 0
IsNumbered last [] = Unit
IsNumbered last (r ∷ rows) = (r.id ≡ suc last) × IsNumbered (suc last) rows

abbrev pub urls : List Row → List Text
urls [] = []
urls (r ∷ rows) = r.url ∷ urls rows

abbrev pub IsDistinct : List Text → Type 0
IsDistinct [] = Unit
IsDistinct (x ∷ xs) = All (λ y. (y == x) ≡ false) xs × IsDistinct xs

pub upsert-IsNumbered :
    (last id : ℕ) (url : Text) (requisite : Bool) (rows : List Row)
    → id ≡ last
    → IsNumbered last rows
    → IsNumbered last (upsert id url requisite rows)
unfolding upsert
upsert-IsNumbered last id url requisite [] e h = (omega arith, tt)
upsert-IsNumbered last id url requisite (r ∷ rows) e h =
    if_holds (IsNumbered last) (r.url == url) _ _ (λ _. h)
      (λ _. (h.0, upsert-IsNumbered (suc last) r.id url requisite rows h.0 h.1))

pub update_row-IsNumbered :
    (last id : ℕ) (f : Row → Row) (rows : List Row)
    → ((r : Row) → (f r).id ≡ r.id)
    → IsNumbered last rows
    → IsNumbered last (update_row id f rows)
unfolding update_row
update_row-IsNumbered last id f [] same h = tt
update_row-IsNumbered last id f (r ∷ rows) same h = (
  if_holds (λ (x : Row). x.id ≡ suc last) (r.id == id) (f r) r (λ _. same r ∙ h.0) (λ _. h.0),
  update_row-IsNumbered (suc last) id f rows same h.1,
)

-- The ids lie above the first number, and no higher than the count says.
pub IsNumbered-bounds :
    (last : ℕ) (rows : List Row)
    → IsNumbered last rows
    → All (λ r. (last < r.id) × (r.id ≤ last + length rows)) rows
IsNumbered-bounds last [] h = tt
IsNumbered-bounds last (r ∷ rows) h = (
  (omega (arith, h.0), omega (arith, h.0)),
  All-impl (λ x. (suc last < x.id) × (x.id ≤ suc last + length rows)) _ rows
      (λ x b. (omega (arith, b), omega (arith, b))) (IsNumbered-bounds (suc last) rows h.1),
)

pub All-urls-upsert :
    (P : Text → Type 0) (id : ℕ) (url : Text) (requisite : Bool) (rows : List Row)
    → P url
    → All P (urls rows)
    → All P (urls (upsert id url requisite rows))
unfolding upsert
All-urls-upsert P id url requisite [] p h = (p, tt)
All-urls-upsert P id url requisite (r ∷ rows) p h =
    if_holds (λ (l : List Row). All P (urls l)) (r.url == url) _ _ (λ _. h)
      (λ _. (h.0, All-urls-upsert P r.id url requisite rows p h.1))

pub upsert-IsDistinct :
    (id : ℕ) (url : Text) (requisite : Bool) (rows : List Row)
    → IsDistinct (urls rows)
    → IsDistinct (urls (upsert id url requisite rows))
unfolding upsert
upsert-IsDistinct id url requisite [] h = (tt, tt)
upsert-IsDistinct id url requisite (r ∷ rows) h =
    if_holds (λ (l : List Row). IsDistinct (urls l)) (r.url == url) _ _ (λ _. h)
      (λ new. (
        All-urls-upsert (λ y. (y == r.url) ≡ false) r.id url requisite rows
            (ground (arith, new, text_eq_iff r.url url, text_eq_iff url r.url)) h.0,
        upsert-IsDistinct r.id url requisite rows h.1,
      ))

pub urls-update_row :
    (id : ℕ) (f : Row → Row) (rows : List Row)
    → ((r : Row) → (f r).url ≡ r.url)
    → urls (update_row id f rows) ≡ urls rows
unfolding update_row
urls-update_row id f [] same = refl
urls-update_row id f (r ∷ rows) same = λ i.
    if_holds (λ (x : Row). x.url ≡ r.url) (r.id == id) (f r) r (λ _. same r) (λ _. refl) i
    ∷ urls-update_row id f rows same i

drop_one : Text → List Text → List Text
drop_one x [] = []
drop_one x (y ∷ ys) = let rest = drop_one x ys in if y == x then ys else y ∷ rest

length-drop_one :
    (x : Text) (ys : List Text) → contains ys x ≡ true → suc (length (drop_one x ys)) ≡ length ys
unfolding drop_one contains
length-drop_one x [] h = cc
length-drop_one x (y ∷ ys) h = ground (arith, length-drop_one x ys)

contains-drop_one :
    (x z : Text) (ys : List Text)
    → (z == x) ≡ false
    → contains ys z ≡ true
    → contains (drop_one x ys) z ≡ true
unfolding drop_one contains
contains-drop_one x z [] e h = cc
contains-drop_one x z (y ∷ ys) e h =
    ground (arith, contains-drop_one x z ys e, text_eq_iff y x, text_eq_iff y z, text_eq_iff z x)

-- Distinct items of a list are no more than the list has.
pub length-IsDistinct :
    (xs ys : List Text) → IsDistinct xs → All (λ x. contains ys x ≡ true) xs → length xs ≤ length ys
length-IsDistinct [] ys d h = omega arith
length-IsDistinct (x ∷ xs) ys d h =
    let rest = length-IsDistinct xs (drop_one x ys) d.1 (
      All-zip (λ z. (z == x) ≡ false) (λ z. contains ys z ≡ true) _ xs
        (λ z e k. contains-drop_one x z ys e k) d.0 h.1) in
    omega (arith, rest, length-drop_one x ys h.0)

pub length-urls : (rows : List Row) → length (urls rows) ≡ length rows
length-urls [] = refl
length-urls (r ∷ rows) = ap suc (length-urls rows)

-- The row that is selected is pending, comes after the last one, and has what all rows have.
pub next_pending-holds :
    (P : Row → Type 0) (last : ℕ) (rows : List Row) (r : Row)
    → next_pending last rows ≡ some r
    → All P rows
    → P r × (last < r.id)
unfolding next_pending
next_pending-holds P last [] r e h = cc
next_pending-holds P last (x ∷ rows) r e h =
    elim (Bool-cases (is_pending x.state && ltb last x.id)) [
      | inl t ↦
          let here = some_eq (rw t at e) in
          subst (λ (y : Row). P y × (last < y.id)) here (h.0, ground (arith, t))
      | inr t ↦ next_pending-holds P last rows r (rw t at e) h.1
    ]

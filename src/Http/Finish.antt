-- ===== src/Http/Finish.antt =====
-- What a run that finishes has done: no row is left that it should have fetched.

use mirrortools.Prelude.{
  ℕ, suc, ◌+◌, ◌≤◌, ◌<◌, ◌≡◌, refl, ap, Bool, true, false, ◌&&◌, not, List, [], ◌∷◌, ◌==◌,
  nat_has_eq, ltb, none, some, arith, Text, text_has_eq, All, All-impl, if_holds, Bool-cases, ◌⊎◌,
  inl, inr, length, some_eq,
}
use mirrortools.NetUrl.{Url, NetUrl}
use mirrortools.Http.{
  Crawler, Row, Scope, in_scope, enqueue, mark_done, set_state, is_pending, upsert, update_row,
}
use mirrortools.Http.Fetch.{World}
use mirrortools.Http.Crawl.{next_pending}
use mirrortools.Http.Keeps.{IsKept}
use mirrortools.Http.Safety.{anything}
use mirrortools.Http.Rows.{
  IsNumbered, upsert-IsNumbered, update_row-IsNumbered, IsNumbered-bounds, next_pending-holds,
}

-- A row that needs nothing more: it is not pending, or a link that leads out of scope.
abbrev pub IsSettled : NetUrl → Scope → Row → Type 0
IsSettled net scope r =
    (is_pending r.state ≡ false)
    ⊎ ((u : Url) × (net.parse r.url ≡ some u)
        × ((not r.requisite && not (in_scope scope u)) ≡ true))

pub next_pending-none :
    (last : ℕ) (rows : List Row)
    → next_pending last rows ≡ none
    → All (λ r. last < r.id → is_pending r.state ≡ false) rows
unfolding next_pending
next_pending-none last [] e = tt
next_pending-none last (x ∷ rows) e = elim (Bool-cases (is_pending x.state && ltb last x.id)) [
  | inl t ↦ let never = rw t at e in cc
  | inr t ↦ ((λ h. ground (arith, t, h)), next_pending-none last rows (rw t at e))
]

-- What comes before the row that is selected, and what has its id.
pub next_pending-first :
    (base last : ℕ) (rows : List Row) (r : Row)
    → IsNumbered base rows
    → next_pending last rows ≡ some r
    → All
        (λ x. (last < x.id → x.id < r.id → is_pending x.state ≡ false) × (x.id ≡ r.id → x ≡ r))
        rows
unfolding next_pending
next_pending-first base last [] r n e = cc
next_pending-first base last (x ∷ rows) r n e =
    elim (Bool-cases (is_pending x.state && ltb last x.id)) [
      | inl t ↦
          let here : x ≡ r = some_eq (rw t at e) in
          let same = ap (λ (y : Row). y.id) here in
          (
            ((λ _ h. absurd (omega (arith, h, same))), (λ _. here)),
            All-impl (λ y. (suc base < y.id) × (y.id ≤ suc base + length rows)) _ rows
                (λ y b. (
                  (λ _ h. absurd (omega (arith, h, b, same, n.0))),
                  (λ h. absurd (omega (arith, h, b, same, n.0))),
                ))
                (IsNumbered-bounds (suc base) rows n.1),
          )
      | inr t ↦
          let rest = rw t at e in
          let above =
            next_pending-holds (λ y. (suc base < y.id) × (y.id ≤ suc base + length rows)) last rows
              r rest (IsNumbered-bounds (suc base) rows n.1) in
          (
            ((λ h _. ground (arith, t, h)), (λ h. absurd (omega (arith, h, above.0, n.0)))),
            next_pending-first (suc base) last rows r n.1 rest,
          )
    ]

module _ (net : NetUrl) (scope : Scope) where
  -- The rows before the bound need nothing more.
  abbrev pub SettledTo : ℕ → List Row → Type 0
  SettledTo bound rows = All (λ r. r.id < bound → IsSettled net scope r) rows

  upsert-SettledTo :
      (bound base id : ℕ) (url : Text) (requisite : Bool) (rows : List Row)
      → id ≡ base
      → bound ≤ suc (base + length rows)
      → IsNumbered base rows
      → SettledTo bound rows
      → SettledTo bound (upsert id url requisite rows)
  unfolding upsert
  upsert-SettledTo bound base id url requisite [] e b n h =
      ((λ k. absurd (omega (arith, k, b, e))), tt)
  upsert-SettledTo bound base id url requisite (r ∷ rows) e b n h =
      if_holds (SettledTo bound) (r.url == url) _ _
        (λ _. (
          (λ k. elim (h.0 k) [ inl d ↦ inl d | inr (u, p, q) ↦ inr (u, p, ground (arith, q)) ]),
          h.1,
        ))
        (λ _. (
          h.0,
          upsert-SettledTo bound (suc base) r.id url requisite rows n.0 (omega (arith, b)) n.1 h.1,
        ))

  update_row-SettledTo :
      (bound id : ℕ) (f : Row → Row) (rows : List Row)
      → ((r : Row) → (f r).id ≡ r.id)
      → ((r : Row) → is_pending (f r).state ≡ false)
      → SettledTo bound rows
      → SettledTo bound (update_row id f rows)
  unfolding update_row
  update_row-SettledTo bound id f [] same d h = tt
  update_row-SettledTo bound id f (r ∷ rows) same d h = (
    if_holds (λ (x : Row). x.id < bound → IsSettled net scope x) (r.id == id) (f r) r
        (λ _ _. inl (d r)) (λ _. h.0),
    update_row-SettledTo bound id f rows same d h.1,
  )

length-upsert :
    (id : ℕ) (url : Text) (requisite : Bool) (rows : List Row)
    → length rows ≤ length (upsert id url requisite rows)
unfolding upsert
length-upsert id url requisite [] = omega arith
length-upsert id url requisite (r ∷ rows) = ground (arith, length-upsert r.id url requisite rows)

length-update_row :
    (id : ℕ) (f : Row → Row) (rows : List Row) → length (update_row id f rows) ≡ length rows
unfolding update_row
length-update_row id f [] = refl
length-update_row id f (r ∷ rows) = ap suc (length-update_row id f rows)

abbrev pub Reached : NetUrl → Scope → ℕ → Crawler → Type 0
Reached net scope bound c =
    IsNumbered 0 c.rows
    × (bound ≤ suc (length c.rows))
    × (c.scope ≡ scope)
    × SettledTo net scope bound c.rows

update_row-Reached :
    (net : NetUrl) (scope : Scope) (bound id : ℕ) (f : Row → Row) (c : Crawler)
    → ((r : Row) → (f r).id ≡ r.id)
    → ((r : Row) → is_pending (f r).state ≡ false)
    → Reached net scope bound c
    → Reached net scope bound (record c { rows = update_row id f c.rows })
update_row-Reached net scope bound id f c same d h = (
  update_row-IsNumbered 0 id f c.rows same h.0,
  omega (arith, h.1, length-update_row id f c.rows),
  h.2,
  update_row-SettledTo net scope bound id f c.rows same d h.3,
)

pub Reached-IsKept :
    (w : World) (scope : Scope) (bound : ℕ) → IsKept w anything (Reached w.net scope bound)
unfolding enqueue mark_done set_state
Reached-IsKept w scope bound = record {
  enqueued = λ u requisite c q p.
      if_holds (Reached w.net scope bound) (not requisite && not (in_scope c.scope u)) c _ (λ _. p)
        (λ _. (
          upsert-IsNumbered 0 0 (w.net.show u) requisite c.rows refl p.0,
          omega (arith, p.1, length-upsert 0 (w.net.show u) requisite c.rows),
          p.2,
          upsert-SettledTo w.net scope bound 0 0 (w.net.show u) requisite c.rows refl
              (omega (arith, p.1)) p.0 p.3,
        ));
  marked = λ id status etag modified c p.
      update_row-Reached w.net scope bound id _ c (λ r. refl) (λ r. refl) p;
  stated = λ id s status message c e p.
      update_row-Reached w.net scope bound id _ c (λ r. refl) (λ r. e) p;
  ticked = λ c p. p;
  requested = λ c p. p;
  counted = λ c p. p;
  written = λ c u local body e p. p;
  created = λ c u local e p. p;
  scoped = λ c p. tt;
}

-- Rows are never deleted.
pub length-IsKept : (w : World) (n : ℕ) → IsKept w anything (λ c. n ≤ length c.rows)
unfolding enqueue mark_done set_state
length-IsKept w n = record {
  enqueued = λ u requisite c q p.
      if_holds (λ (x : Crawler). n ≤ length x.rows) (not requisite && not (in_scope c.scope u)) c _
        (λ _. p) (λ _. omega (arith, p, length-upsert 0 (w.net.show u) requisite c.rows));
  marked = λ id status etag modified c p. omega (arith, p, length-update_row id _ c.rows);
  stated = λ id s status message c e p. omega (arith, p, length-update_row id _ c.rows);
  ticked = λ c p. p;
  requested = λ c p. p;
  counted = λ c p. p;
  written = λ c u local body e p. p;
  created = λ c u local e p. p;
  scoped = λ c p. tt;
}

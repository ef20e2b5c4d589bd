-- ===== src/Http/Termination.antt =====
-- A crawl of finitely many URLs ends: each round of run takes a row with a higher id, and there are
-- no more rows than URLs.
use mathlib.Core.Path.{subst}
use mirrortools.Prelude.{
  ℕ, zero, suc, ◌+◌, ◌≤◌, ◌<◌, ◌≡◌, refl, sym, Bool, true, false, ◌&&◌, not, List, Option, none,
  some, arith, Text, text_has_eq, All, All-impl, if_holds, contains, length, ◌∷◌, [],
}
use mirrortools.NetUrl.{NetUrl}
use mirrortools.Http.{
  Crawler, Row, in_scope, enqueue, mark_done, set_state, upsert, update_row, Scope,
}
use mirrortools.Http.Fetch.{World}
use mirrortools.Http.Crawl.{End, stopped, run, run_from, visit, next_pending, on_next, stop_or}
use mirrortools.Http.Keeps.{IsKept, Leads, Web}
use mirrortools.Http.Runs.{visit-kept}
use mirrortools.Http.Rows.{
  IsNumbered, IsDistinct, urls, upsert-IsNumbered, upsert-IsDistinct, All-urls-upsert,
  update_row-IsNumbered, urls-update_row, IsNumbered-bounds, length-IsDistinct, length-urls,
  next_pending-holds,
}

-- A finite web: its URLs are asked for, in one scope, and the answers lead to its URLs.
abbrev pub finite : NetUrl → List Text → Scope → Web
finite net urls scope = record {
  asked = λ u. (url : Text) × (contains urls url ≡ true) × (net.parse url ≡ some u);
  within = λ s. s ≡ scope;
  led_to = λ u. contains urls (net.show u) ≡ true;
}

-- The rows as the table keeps them, and each of the web.
abbrev pub IsTable : List Text → List Row → Type 0
IsTable web rows =
    IsNumbered 0 rows × IsDistinct (urls rows) × All (λ x. contains web x ≡ true) (urls rows)

update_row-IsTable :
    (web : List Text) (id : ℕ) (f : Row → Row) (rows : List Row)
    → ((r : Row) → (f r).id ≡ r.id)
    → ((r : Row) → (f r).url ≡ r.url)
    → IsTable web rows
    → IsTable web (update_row id f rows)
update_row-IsTable web id f rows same_id same_url h =
    let as_before = urls-update_row id f rows same_url in
    (
      update_row-IsNumbered 0 id f rows same_id h.0,
      subst IsDistinct (sym as_before) h.1,
      subst (All (λ x. contains web x ≡ true)) (sym as_before) h.2,
    )

upsert-IsTable :
    (web : List Text) (url : Text) (requisite : Bool) (rows : List Row)
    → contains web url ≡ true
    → IsTable web rows
    → IsTable web (upsert 0 url requisite rows)
upsert-IsTable web url requisite rows e h = (
  upsert-IsNumbered 0 0 url requisite rows refl h.0,
  upsert-IsDistinct 0 url requisite rows h.1,
  All-urls-upsert (λ x. contains web x ≡ true) 0 url requisite rows e h.2,
)

-- The table of a crawler in the scope.
abbrev HasTable : List Text → Scope → Crawler → Type 0
HasTable web scope c = IsTable web c.rows × (c.scope ≡ scope)

HasTable-IsKept :
    (w : World) (web : List Text) (scope : Scope)
    → IsKept w (finite w.net web scope) (HasTable web scope)
unfolding enqueue mark_done set_state
HasTable-IsKept w web scope = record {
  enqueued = λ u requisite c q p.
      if_holds (HasTable web scope) (not requisite && not (in_scope c.scope u)) c _ (λ _. p)
        (λ _. (upsert-IsTable web (w.net.show u) requisite c.rows q p.0, p.1));
  marked = λ id status etag modified c p.
      (update_row-IsTable web id _ c.rows (λ r. refl) (λ r. refl) p.0, p.1);
  stated = λ id s status message c e p.
      (update_row-IsTable web id _ c.rows (λ r. refl) (λ r. refl) p.0, p.1);
  ticked = λ c p. p;
  requested = λ c p. p;
  counted = λ c p. p;
  written = λ c u local body e p. p;
  created = λ c u local e p. p;
  scoped = λ c p. p.1;
}

-- No row's id is above the number of URLs.
IsTable-bound :
    (web : List Text) (rows : List Row) → IsTable web rows → All (λ r. r.id ≤ length web) rows
IsTable-bound web rows h =
    All-impl (λ r. (0 < r.id) × (r.id ≤ 0 + length rows)) _ rows
      (λ r b. omega (arith, b, length-urls rows, length-IsDistinct (urls rows) web h.1 h.2))
      (IsNumbered-bounds 0 rows h.0)

abbrev Returns : Option (End × Crawler) → Type 0
Returns none = ⊥
Returns (some r) = Unit

stop_or-Returns :
    (w : World) (again : Option (End × Crawler)) (x : Bool × Crawler)
    → Returns again
    → Returns (stop_or w again x)
stop_or-Returns w again (true, c) h = tt
stop_or-Returns w again (false, c) h = h

on_next-Returns :
    (w : World) (go : Row → Option (End × Crawler)) (c : Crawler) (o : Option Row)
    → ((r : Row) → o ≡ some r → Returns (go r))
    → Returns (on_next w go c o)
on_next-Returns w go c none h = tt
on_next-Returns w go c (some r) h = h r refl

rows_of_urls : (P : Text → Type 0) (rows : List Row) → All P (urls rows) → All (λ r. P r.url) rows
rows_of_urls P [] h = tt
rows_of_urls P (r ∷ rows) h = (h.0, rows_of_urls P rows h.1)

module _ (w : World) (web : List Text) (scope : Scope) (l : Leads w (finite w.net web scope)) where
  run_from-Returns :
      (fuel last : ℕ) (c : Crawler)
      → HasTable web scope c
      → last ≤ length web
      → length web < fuel + last
      → Returns (run_from w fuel last c)
  unfolding run_from
  run_from-Returns zero last c h b m = absurd (omega arith)
  run_from-Returns (suc fuel) last c h b m =
      if_holds Returns (w.cancelled c.ticks) (some (stopped, c)) _ (λ _. tt)
        (λ _. on_next-Returns w _ c (next_pending last c.rows) (λ r e.
          let found =
            next_pending-holds (λ x. x.id ≤ length web) last c.rows r e
              (IsTable-bound web c.rows h.0) in
          let known =
            next_pending-holds (λ x. contains web x.url ≡ true) last c.rows r e
              (rows_of_urls (λ x. contains web x ≡ true) c.rows h.0.2) in
          stop_or-Returns w _ (visit w r c) (
            run_from-Returns fuel r.id (visit w r c).1
              (visit-kept w (finite w.net web scope) (HasTable web scope)
                (HasTable-IsKept w web scope) l r c (λ u parsed. (r.url, known.0, parsed)) h)
              found.0 (omega (arith, found.1)))))

returned : (o : Option (End × Crawler)) → Returns o → (r : End × Crawler) × (o ≡ some r)
returned none h = absurd h
returned (some r) h = (r, refl)

-- Let the URLs of a finite list, when they are asked for in the crawl's scope, be answered only by
-- redirections, links and requisites that are in the list, and let the crawl's table have ids that
-- count from one and distinct URLs of the list. Then the run ends after no more rounds than there
-- are URLs, and one to see that nothing is left, whatever fails.
pub run_total :
    (w : World) (web : List Text) (c : Crawler)
    → Leads w (finite w.net web c.scope)
    → IsTable web c.rows
    → (r : End × Crawler) × (run w (suc (length web)) c ≡ some r)
unfolding run
run_total w web c l h =
    returned (run_from w (suc (length web)) 0 c) (
      run_from-Returns w web c.scope l (suc (length web)) 0 c (h, refl) (omega arith) (omega arith))

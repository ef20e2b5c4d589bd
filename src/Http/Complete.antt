-- ===== src/Http/Complete.antt =====
-- The rounds of a run that finishes: each leaves the rows up to its own with nothing more to do.
use mathlib.Core.Path.{subst}
use mirrortools.Prelude.{
  ℕ, zero, suc, ◌+◌, ◌≤◌, ◌<◌, ◌≡◌, refl, sym, ap, ◌∙◌, Bool, true, false, ◌&&◌, not, List, Option,
  none, some, arith, codes, All, All-impl, All-zip, if_holds, Bool-cases, inl, inr, length, ltb,
}
use mirrortools.NetUrl.{Url, NetUrl}
use mirrortools.Http.{Crawler, Row, Scope, failed, in_scope, set_state, is_pending}
use mirrortools.Http.Fetch.{World, process}
use mirrortools.Http.Crawl.{
  End, finished, stopped, run, run_from, visit, visit_at, next_pending, on_next, stop_or,
}
use mirrortools.Http.Runs.{visit-kept}
use mirrortools.Http.Safety.{anything, Leads-anything}
use mirrortools.Http.Rows.{IsNumbered, IsNumbered-bounds, next_pending-holds}
use mirrortools.Http.Settled.{Processed, update_row-IsDone, process-Processed}
use mirrortools.Http.Finish.{
  IsSettled, SettledTo, Reached, Reached-IsKept, length-IsKept, next_pending-none,
  next_pending-first,
}

module _ (w : World) (scope : Scope) where
  -- The visited row needs nothing more, unless the context was cancelled.
  abbrev Visited : ℕ → Bool × Crawler → Type 0
  Visited id (true, c) = Unit
  Visited id (false, c) = All (λ x. x.id ≡ id → IsSettled w.net scope x) c.rows

  Processed-Visited : (id : ℕ) (x : Bool × Crawler) → Processed w id x → Visited id x
  Processed-Visited id (true, c) h = tt
  Processed-Visited id (false, c) h =
      All-impl (λ r. r.id ≡ id → is_pending r.state ≡ false) _ c.rows (λ r d e. inl (d e)) h

  visit_at-Visited :
      (r : Row) (c : Crawler) (o : Option Url)
      → w.net.parse r.url ≡ o
      → c.scope ≡ scope
      → All (λ x. x.id ≡ r.id → x ≡ r) c.rows
      → Visited r.id (visit_at w r c o)
  unfolding visit_at
  visit_at-Visited r c none e s one =
      All-impl (λ x. x.id ≡ r.id → is_pending x.state ≡ false) _
        (set_state r.id failed 0 (codes "parse") c).rows (λ x d k. inl (d k))
        (unfold set_state in update_row-IsDone r.id _ c.rows (λ x. refl))
  visit_at-Visited r c (some u) e s one =
      if_holds (Visited r.id) (not r.requisite && not (in_scope c.scope u)) (false, c) _
        (λ t.
          All-impl (λ x. x.id ≡ r.id → x ≡ r) _ c.rows
            (λ x same k.
              subst (IsSettled w.net scope) (sym (same k))
                (inr (u, e, ap (λ (z : Scope). not r.requisite && not (in_scope z u)) (sym s) ∙ t)))
            one)
        (λ _.
          Processed-Visited r.id (process w r.id u r.requisite c)
            (process-Processed w r.id u r.requisite c))

  visit-Visited :
      (r : Row) (c : Crawler)
      → c.scope ≡ scope
      → All (λ x. x.id ≡ r.id → x ≡ r) c.rows
      → Visited r.id (visit w r c)
  unfolding visit
  visit-Visited r c s one = visit_at-Visited r c (w.net.parse r.url) refl s one

  -- The rows of a run that finishes need nothing more.
  abbrev Finishes : Option (End × Crawler) → Type 0
  Finishes none = Unit
  Finishes (some (finished, c)) = All (IsSettled w.net scope) c.rows
  Finishes (some (stopped, c)) = Unit

  stop_or-Finishes :
      (id : ℕ) (again : Option (End × Crawler)) (x : Bool × Crawler)
      → (Reached w.net scope (suc id) x.1 → Finishes again)
      → Reached w.net scope id x.1
      → id ≤ length x.1.rows
      → Visited id x
      → Finishes (stop_or w again x)
  stop_or-Finishes id again (true, c) g h b v = tt
  stop_or-Finishes id again (false, c) g h b v = g (
    h.0,
    omega (arith, b),
    h.2,
    All-zip (λ r. r.id < id → IsSettled w.net scope r) (λ r. r.id ≡ id → IsSettled w.net scope r) _
        c.rows
        (λ r before here k. elim (Bool-cases (ltb r.id id)) [
          | inl t ↦ before (ground (arith, t))
          | inr t ↦ here (ground (arith, t, k))
        ])
        h.3 v,
  )

  on_next-Finishes :
      (go : Row → Option (End × Crawler)) (c : Crawler) (o : Option Row)
      → (o ≡ none → All (IsSettled w.net scope) c.rows)
      → ((r : Row) → o ≡ some r → Finishes (go r))
      → Finishes (on_next w go c o)
  on_next-Finishes go c none h g = h refl
  on_next-Finishes go c (some r) h g = g r refl

  -- When nothing is left after the last id, nothing is left at all.
  nothing_left :
      (last : ℕ) (c : Crawler)
      → Reached w.net scope (suc last) c
      → next_pending last c.rows ≡ none
      → All (IsSettled w.net scope) c.rows
  nothing_left last c h e =
      All-zip (λ r. r.id < suc last → IsSettled w.net scope r)
        (λ r. last < r.id → is_pending r.state ≡ false) _ c.rows
        (λ r before after. elim (Bool-cases (ltb last r.id)) [
          | inl t ↦ inl (after (ground (arith, t)))
          | inr t ↦ before (ground (arith, t))
        ])
        h.3 (next_pending-none last c.rows e)

  -- Before the row that is selected, nothing is left.
  Reached-next :
      (last : ℕ) (c : Crawler) (r : Row)
      → Reached w.net scope (suc last) c
      → next_pending last c.rows ≡ some r
      → Reached w.net scope r.id c × (r.id ≤ length c.rows)
  Reached-next last c r h e =
      let found =
        next_pending-holds (λ x. (0 < x.id) × (x.id ≤ 0 + length c.rows)) last c.rows r e
          (IsNumbered-bounds 0 c.rows h.0) in
      (
        (
          h.0,
          omega (arith, found.0),
          h.2,
          All-zip (λ x. x.id < suc last → IsSettled w.net scope x)
              (λ x.
                (last < x.id → x.id < r.id → is_pending x.state ≡ false) × (x.id ≡ r.id → x ≡ r))
              _ c.rows
              (λ x before between k. elim (Bool-cases (ltb last x.id)) [
                | inl t ↦ inl (between.0 (ground (arith, t)) k)
                | inr t ↦ before (ground (arith, t))
              ])
              h.3 (next_pending-first 0 last c.rows r h.0 e),
        ),
        omega (arith, found.0),
      )

  run_from-Finishes :
      (fuel last : ℕ) (c : Crawler)
      → Reached w.net scope (suc last) c
      → Finishes (run_from w fuel last c)
  unfolding run_from
  run_from-Finishes zero last c h = tt
  run_from-Finishes (suc fuel) last c h =
      if_holds Finishes (w.cancelled c.ticks) (some (stopped, c)) _ (λ _. tt)
        (λ _. on_next-Finishes _ c (next_pending last c.rows) (nothing_left last c h) (λ r e.
          let here = Reached-next last c r h e in
          let one =
            All-impl
              (λ x.
                (last < x.id → x.id < r.id → is_pending x.state ≡ false) × (x.id ≡ r.id → x ≡ r))
              _ c.rows (λ x f. f.1) (next_pending-first 0 last c.rows r h.0 e) in
          stop_or-Finishes r.id _ (visit w r c)
            (λ next. run_from-Finishes fuel r.id (visit w r c).1 next)
            (visit-kept w anything (Reached w.net scope r.id) (Reached-IsKept w scope r.id)
              (Leads-anything w) r c (λ u _. tt) here.0)
            (visit-kept w anything (λ x. r.id ≤ length x.rows) (length-IsKept w r.id)
              (Leads-anything w) r c (λ u _. tt) here.1)
            (visit-Visited r c h.2 one)))

SettledTo-one :
    (net : NetUrl) (scope : Scope) (rows : List Row)
    → IsNumbered 0 rows
    → SettledTo net scope 1 rows
SettledTo-one net scope rows n =
    All-impl (λ r. (0 < r.id) × (r.id ≤ 0 + length rows)) _ rows
      (λ r b k. absurd (omega (arith, b, k))) (IsNumbered-bounds 0 rows n)

-- Whatever the servers answer, and whatever fails: when a run finishes that began with a table
-- whose ids count from one, no row is pending, but for links that lead out of the scope.
pub run-IsSettled :
    (w : World) (fuel : ℕ) (c after : Crawler)
    → IsNumbered 0 c.rows
    → run w fuel c ≡ some (finished, after)
    → All (IsSettled w.net c.scope) after.rows
unfolding run
run-IsSettled w fuel c after n e = subst (Finishes w c.scope) e (
    run_from-Finishes w c.scope fuel 0 c
      (n, omega arith, refl, SettledTo-one w.net c.scope c.rows n))

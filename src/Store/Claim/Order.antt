-- ===== src/Store/Claim/Order.antt =====
-- Which job ClaimNextJob takes: one that no queued job comes before.
use mathlib.Core.Path.{subst}
use mirrortools.Prelude.{
  sym, ℕ, true, false, some, List, [], ◌∷◌, ◌≡◌, refl, nat_has_eq, select, All, All-select,
  All-of-select, All-impl, All-first_by, first_by, first_by-IsFirst, IsWeakOrder,
  then_by-IsWeakOrder, descending-IsWeakOrder, by_key-IsWeakOrder, ltb-IsWeakOrder,
  ltb_ℤ-IsWeakOrder, text_lt-IsWeakOrder, Option, none, ◌⊎◌, inl, inr, if◌then◌else◌, ◌==◌, arith,
  ◌∙◌, ◌≢◌, contains, ltb_ℤ, text_has_eq, ℤ,
}
use mirrortools.Job.{queued, state_eq_iff, Platform, Time, Job}
use mirrortools.Store.Tables.{
  queue_empty, ok, err, Row, Tables, Conn, transaction, statement, transaction-ok,
  statement_then-ok,
}
use mirrortools.Store.Sql.{
  update, query, find_row, Ascends, find_row_self, find_row-update_at, at_id, query-ok,
}
use mirrortools.Store.Jobs.{scan_row, in_state, always}
use mirrortools.Store.Claim.{
  site_load, claimed_before, first_row, next_row, started_row, claim, claim_next_job, busy_sites,
}

claimed_before-IsWeakOrder : (rows : List Row) → IsWeakOrder (claimed_before rows)
unfolding claimed_before
claimed_before-IsWeakOrder rows =
    then_by-IsWeakOrder _ _
      (descending-IsWeakOrder _ (by_key-IsWeakOrder (λ (r : Row). r.priority) _ ltb_ℤ-IsWeakOrder))
      (then_by-IsWeakOrder _ _ (by_key-IsWeakOrder (site_load rows) _ ltb-IsWeakOrder) (
        then_by-IsWeakOrder _ _ (by_key-IsWeakOrder (λ (r : Row). r.site) _ text_lt-IsWeakOrder) (
          then_by-IsWeakOrder _ _ (by_key-IsWeakOrder (λ (r : Row). r.path) _ text_lt-IsWeakOrder)
            (by_key-IsWeakOrder (λ (r : Row). r.created_at) _ ltb-IsWeakOrder))))

-- A queued row that no other queued row comes before.
pub record IsNext (rows : List Row) (r : Row) : Type 0 where
  pub stored : find_row r.id rows ≡ some r
  pub waiting : r.state ≡ queued
  pub none_before : All (λ q. q.state ≡ queued → claimed_before rows q r ≡ false) rows
  -- No queued row is more urgent, and if the row's site is busy, so is that of every queued row
  -- which is as urgent.
  pub most_urgent : All (λ q. q.state ≡ queued → ltb_ℤ r.priority q.priority ≡ false) rows
  pub spreads :
      contains (busy_sites rows) r.site ≡ true
      → All
          (λ q.
            q.state ≡ queued → q.priority ≡ r.priority → contains (busy_sites rows) q.site ≡ true)
          rows

before-of_queued :
    (rows : List Row) (r : Row)
    → All (λ q. in_state queued q ≡ true → claimed_before rows q r ≡ false) rows
    → All (λ q. q.state ≡ queued → claimed_before rows q r ≡ false) rows
before-of_queued rows r =
    All-impl _ (λ q. q.state ≡ queued → claimed_before rows q r ≡ false) rows
      (λ q h e. h ((state_eq_iff _ _).1 e))

urgent_first :
    (rows : List Row) (q r : Row)
    → claimed_before rows q r ≡ false
    → ltb_ℤ r.priority q.priority ≡ false
unfolding claimed_before
urgent_first rows q r h = ground (arith, h)

never_above : (z : ℤ) → ltb_ℤ z z ≡ false
never_above z = ground arith

idle_first :
    (rows : List Row) (q r : Row)
    → claimed_before rows q r ≡ false
    → contains (busy_sites rows) r.site ≡ true
    → q.priority ≡ r.priority
    → contains (busy_sites rows) q.site ≡ true
unfolding claimed_before
idle_first rows q r h busy same = ground (arith, h, busy, same, never_above r.priority)

none_before-IsNext :
    (rows : List Row) (r : Row)
    → find_row r.id rows ≡ some r
    → r.state ≡ queued
    → All (λ q. q.state ≡ queued → claimed_before rows q r ≡ false) rows
    → IsNext rows r
none_before-IsNext rows r stored waiting none_before = record {
  stored = stored;
  waiting = waiting;
  none_before = none_before;
  most_urgent =
      All-impl _ (λ q. q.state ≡ queued → ltb_ℤ r.priority q.priority ≡ false) rows
        (λ q h e. urgent_first rows q r (h e)) none_before;
  spreads = λ busy.
      All-impl _
        (λ q. q.state ≡ queued → q.priority ≡ r.priority → contains (busy_sites rows) q.site ≡ true)
        rows (λ q h e same. idle_first rows q r (h e) busy same) none_before;
}

module _ (n : ℕ) (rows : List Row) (ascends : Ascends n rows) where
  chosen-IsNext :
      (r : Row) (rs : List Row)
      → select (in_state queued) rows ≡ r ∷ rs
      → IsNext rows (first_by (claimed_before rows) r rs)
  chosen-IsNext r rs e =
      let found =
        All-select (in_state queued) (λ x. find_row x.id rows ≡ some x) rows
          (find_row_self n rows ascends) in
      let listed = (rw e at found) in
      let best =
        All-first_by (claimed_before rows)
          (λ x. (find_row x.id rows ≡ some x) × (in_state queued x ≡ true)) r rs listed.0
          listed.1 in
      let first = first_by-IsFirst (claimed_before rows) (claimed_before-IsWeakOrder rows) r rs in
      none_before-IsNext rows _ best.0 ((state_eq_iff _ _).0 best.1) (
        before-of_queued rows _ (
          All-of-select (in_state queued)
            (λ q. claimed_before rows q (first_by (claimed_before rows) r rs) ≡ false) rows
            (subst (All λ q. claimed_before rows q (first_by (claimed_before rows) r rs) ≡ false)
              (sym e) first)))

  pub next_row-IsNext : (r : Row) → next_row rows ≡ some r → IsNext rows r
  unfolding next_row
  next_row-IsNext r h = of_list (select (in_state queued) rows) refl h
    where
      of_list :
          (qs : List Row)
          → select (in_state queued) rows ≡ qs
          → first_row (claimed_before rows) qs ≡ some r
          → IsNext rows r
      of_list [] e k = cc
      of_list (q ∷ qs) e k = subst (IsNext rows) (cc) (chosen-IsNext q qs e)

-- What a claim returns and leaves: the row that it found, now running.
pub record Claims (p : Platform) (now : Time) (t : Tables) (job : Job) (after : Tables)
    : Type 0 where
  pub row : Row
  pub next : IsNext t.jobs row
  pub returned : job ≡ scan_row p (started_row now row)
  pub others :
      (i : ℕ)
      → find_row i after.jobs
        ≡ (if row.id == i then some (started_row now row) else find_row i t.jobs)
  pub rest : (after.logs ≡ t.logs) × (after.settings ≡ t.settings)

module _ (p : Platform) (now : Time) (n : ℕ) where
  updated-Claims :
      (t : Tables) (r : Row)
      → IsNext t.jobs r
      → Claims p now t
          (scan_row p (started_row now r))
          (update (at_id r.id always) (started_row now) t).1
  unfolding update
  updated-Claims t r next = record {
    row = r;
    next = next;
    returned = refl;
    others = λ i.
        ground (
          arith,
          find_row-update_at always (started_row now) (λ x. refl) r.id i t.jobs,
          next.stored,
        );
    rest = (refl, refl);
  }

  claim-Claims :
      (c : Conn) (found : Option Row) (job : Job)
      → ((r : Row) → found ≡ some r → IsNext c.tables.jobs r)
      → (claim p now found c).0 ≡ ok job
      → Claims p now c.tables job (claim p now found c).1.tables
  unfolding claim scan_row
  claim-Claims c none job next h = cc
  claim-Claims c (some r) job next h =
      let (_, _, _, run) =
        statement_then-ok (update (at_id r.id always) (started_row now)) _ c job h in
      let done = rw run at h in
      let same : scan_row p (started_row now r) ≡ job = cc done in
      rw run (
        subst
          (λ j. Claims p now c.tables j (update (at_id r.id always) (started_row now) c.tables).1)
          same (updated-Claims c.tables r (next r refl)))

  -- Over tables whose ids ascend, whichever calls of the driver fail: a claim that returns a job
  -- has taken one that was queued, that no queued job comes before in the order of the query, and
  -- that no queued job is more urgent than; if its site is busy, so are the sites of all queued
  -- jobs that are as urgent. The claim returns the job running, has left it running in the tables,
  -- and has changed no other job, no log line and no setting.
  pub claim_next_job-Claims :
      (c : Conn) (job : Job)
      → Ascends n c.tables.jobs
      → (claim_next_job p now c).0 ≡ ok job
      → Claims p now c.tables job (claim_next_job p now c).1.tables
  unfolding claim_next_job query
  claim_next_job-Claims c job a h =
      let (fs, ran, left) = transaction-ok _ c job h in
      let (found, fs', asked, run) =
        statement_then-ok (query (λ t. next_row t.jobs)) (claim p now) (record c { faults = fs })
          job ran in
      let (e, same) = query-ok (λ t. next_row t.jobs) c.tables asked in
      let inside : Conn = record {
        tables = (query (λ t. next_row t.jobs) c.tables).1;
        faults = fs';
      } in
      let claimed =
        claim-Claims inside found job (λ r k. rw same (next_row-IsNext n c.tables.jobs a r (e ∙ k)))
          (rw run at ran) in
      rw (left, run) (rw same at claimed)

-- While the driver does not fail, a claim returns a job, or no job is queued and it says that the
-- queue is empty.
pub claim_next_job-total :
    (p : Platform) (now : Time) (t : Tables)
    → let r = (claim_next_job p now (record { tables = t; faults = [] })).0 in
      ((job : Job) × (r ≡ ok job)) ⊎ (All (λ q. q.state ≢ queued) t.jobs × (r ≡ err queue_empty))
unfolding claim_next_job claim next_row query update statement transaction scan_row
claim_next_job-total p now t = of_list (select (in_state queued) t.jobs) refl
  where
    of_list :
        (qs : List Row)
        → select (in_state queued) t.jobs ≡ qs
        → let r = (claim_next_job p now (record { tables = t; faults = [] })).0 in
          ((job : Job) × (r ≡ ok job))
          ⊎ (All (λ q. q.state ≢ queued) t.jobs × (r ≡ err queue_empty))
    of_list [] e = inr (
      All-impl (λ q. in_state queued q ≡ true → ⊥) (λ q. q.state ≢ queued) t.jobs
          (λ q h k. h ((state_eq_iff _ _).1 k))
          (All-of-select (in_state queued) (λ q. ⊥) t.jobs (subst (All (λ q. ⊥)) (sym e) tt)),
      ground (arith, e),
    )
    of_list (q ∷ qs) e =
        inl
          (scan_row p (started_row now (first_by (claimed_before t.jobs) q qs)), rw (e, first_row))

-- ===== src/Store/Batch/Effect.antt =====
-- What each batch action does to each job, and that it does to its targets what the method for one
-- job does to each of them in turn.

use mathlib.Core.Option
use mirrortools.Prelude.{
  ℕ, ◌≡◌, refl, sym, ap, ◌∙◌, Bool, true, false, Option, none, some, List, [], ◌∷◌, if◌then◌else◌,
  nat_has_eq, nat_eq_iff, Text, arith, contains, Option-cases, inl, inr,
}
use mirrortools.Job.{
  State, queued, running, paused, completed, failed, quarantined, cancelled, Time, BatchActionKind,
  batch_pause, batch_resume, batch_quarantine, batch_unquarantine, batch_cancel, batch_retry,
  batch_delete, batch_other,
}
use mirrortools.Store.Tables.{Row, Tables, statement}
use mirrortools.Store.Sql.{
  update, update_where, delete, delete_where, find_row, find_row-id, at_id, Ascends, survivor,
  find_row-update_where, find_row-delete_where,
}
use mirrortools.Store.Jobs.{
  in_state, with_state, quarantined_row, cancellable, cancelled_row, reset_row, deletable, always,
}
use mirrortools.Store.Lifecycle.{Op, pauses, resumes, cancels, quarantines, run_op, sound}
use mirrortools.Store.Batch.{among, batch_reason, freed_row, batch_statement}

-- The states in which a batch action changes a job.
abbrev pub batch_allows : BatchActionKind → State → Bool
batch_allows batch_pause queued = true
batch_allows batch_pause _ = false
batch_allows batch_resume paused = true
batch_allows batch_resume _ = false
batch_allows batch_quarantine _ = true
batch_allows batch_unquarantine quarantined = true
batch_allows batch_unquarantine _ = false
batch_allows batch_cancel queued = true
batch_allows batch_cancel running = true
batch_allows batch_cancel paused = true
batch_allows batch_cancel _ = false
batch_allows batch_retry _ = true
batch_allows batch_delete completed = true
batch_allows batch_delete failed = true
batch_allows batch_delete cancelled = true
batch_allows batch_delete quarantined = true
batch_allows batch_delete _ = false
batch_allows (batch_other _) _ = false

abbrev pub batch_outcome : BatchActionKind → Text → Time → Row → Option Row
batch_outcome batch_pause reason now r = some (record r { state = paused })
batch_outcome batch_resume reason now r = some (record r { state = queued })
batch_outcome batch_quarantine reason now r = some (record r {
  state = quarantined;
  quarantine_reason = some (batch_reason reason);
  finished_at = some now;
})
batch_outcome batch_unquarantine reason now r =
    some (record r { state = queued; quarantine_reason = some []; retry_count = 0 })
batch_outcome batch_cancel reason now r =
    some (record r { state = cancelled; finished_at = some now })
batch_outcome batch_retry reason now r = some (record r {
  state = queued;
  last_error = some [];
  quarantine_reason = some [];
  retry_count = 0;
  started_at = none;
  finished_at = none;
})
batch_outcome batch_delete reason now r = none
batch_outcome (batch_other _) reason now r = some r

abbrev pub batch_next : BatchActionKind → Text → Time → Option Row → Option Row
batch_next a reason now none = none
batch_next a reason now (some r) =
    if batch_allows a r.state then batch_outcome a reason now r else some r

-- An update over several ids, seen at one of them.
find_row-update_among :
    (q : Row → Bool) (f : Row → Row) (targets : List ℕ) (j : ℕ) (rows : List Row)
    → ((r : Row) → (f r).id ≡ r.id)
    → find_row j (update_where (among targets q) f rows) ≡ (
        if contains targets j
        then Option.map (λ r. if q r then f r else r) (find_row j rows)
        else find_row j rows)
find_row-update_among q f targets j rows keeps = elim (Option-cases (find_row j rows)) [
  | inl e ↦ rw (find_row-update_where (among targets q) f keeps j rows) (rw e (ground arith))
  | inr (r, e) ↦
      rw (find_row-update_where (among targets q) f keeps j rows)
        (rw e (ground (arith, find_row-id j rows r e)))
]

find_row-delete_among :
    (q : Row → Bool) (targets : List ℕ) (n j : ℕ) (rows : List Row)
    → Ascends n rows
    → find_row j (delete_where (among targets q) rows)
      ≡ (if contains targets j then survivor q (find_row j rows) else find_row j rows)
find_row-delete_among q targets n j rows a = elim (Option-cases (find_row j rows)) [
  | inl e ↦ rw (find_row-delete_where (among targets q) n j rows a) (rw e (ground arith))
  | inr (r, e) ↦
      rw (find_row-delete_where (among targets q) n j rows a)
        (rw e (ground (arith, find_row-id j rows r e)))
]

module _ (targets : List ℕ) (reason : Text) (now : Time) (n : ℕ) (t : Tables)
    (rows : Ascends n t.jobs) where
  -- Over tables whose ids ascend, while the driver does not fail, the statement of a batch action
  -- leaves of each target what the table `batch_next` says of its row, and every other job as it
  -- was.
  pub batch_statement-next :
      (a : BatchActionKind) (j : ℕ)
      → find_row j (batch_statement a targets reason now (sound t)).1.tables.jobs ≡ (
          if contains targets j
          then batch_next a reason now (find_row j t.jobs)
          else find_row j t.jobs)
  unfolding batch_statement update delete statement
  batch_statement-next batch_pause j = ground (
    arith,
    find_row-update_among (in_state queued) (with_state paused) targets j t.jobs (λ r. refl),
  )
  batch_statement-next batch_resume j = ground (
    arith,
    find_row-update_among (in_state paused) (with_state queued) targets j t.jobs (λ r. refl),
  )
  batch_statement-next batch_quarantine j = ground (
    arith,
    find_row-update_among always (quarantined_row (batch_reason reason) now) targets j t.jobs
        (λ r. refl),
  )
  batch_statement-next batch_unquarantine j =
      ground
        (arith, find_row-update_among (in_state quarantined) freed_row targets j t.jobs (λ r. refl))
  batch_statement-next batch_cancel j =
      ground
        (arith, find_row-update_among cancellable (cancelled_row now) targets j t.jobs (λ r. refl))
  batch_statement-next batch_retry j =
      ground (arith, find_row-update_among always reset_row targets j t.jobs (λ r. refl))
  batch_statement-next batch_delete j =
      ground (arith, find_row-delete_among deletable targets n j t.jobs rows)
  batch_statement-next (batch_other name) j = ground arith

-- One statement over a list of ids is one statement for each id in turn, for an update that is
-- done at once: a row that it has changed fails the test, or is changed no further.
update_where-cons :
    (q : Row → Bool) (f : Row → Row) (i : ℕ) (is : List ℕ) (rows : List Row)
    → ((r : Row) → (f r).id ≡ r.id)
    → ((r : Row) → (if q (f r) then f (f r) else f r) ≡ f r)
    → update_where (among (i ∷ is) q) f rows
      ≡ update_where (among is q) f (update_where (at_id i q) f rows)
unfolding update_where contains
update_where-cons q f i is [] keeps once = refl
update_where-cons q f i is (r ∷ rs) keeps once =
    ground (arith, update_where-cons q f i is rs keeps once, keeps r, once r, nat_eq_iff i r.id)

-- The method for one job, called on each target.
pub run_each : Op → List ℕ → Tables → Tables
unfolding run_op
run_each o [] t = t
run_each o (i ∷ is) t = run_each o is (run_op o i (sound t)).1.tables

update_where-nil :
    (q : Row → Bool) (f : Row → Row) (rows : List Row) → update_where (among [] q) f rows ≡ rows
unfolding update_where contains
update_where-nil q f [] = refl
update_where-nil q f (r ∷ rs) = ground (arith, update_where-nil q f rs)

-- For an operation that is such an update.
module _ (o : Op) (q : Row → Bool) (f : Row → Row)
    (is_update : (i : ℕ) (t : Tables)
      → (run_op o i (sound t)).1.tables ≡ (update (at_id i q) f t).1)
    (keeps : (r : Row) → (f r).id ≡ r.id)
    (once : (r : Row) → (if q (f r) then f (f r) else f r) ≡ f r) where
  update-eq-each :
      (targets : List ℕ) (t : Tables) → (update (among targets q) f t).1 ≡ run_each o targets t
  unfolding run_each update
  update-eq-each [] t = ap (λ js. record t { jobs = js }) (update_where-nil q f t.jobs)
  update-eq-each (i ∷ is) t =
      ap (λ js. record t { jobs = js }) (update_where-cons q f i is t.jobs keeps once)
      ∙ update-eq-each is (record t { jobs = update_where (at_id i q) f t.jobs })
      ∙ ap (run_each o is) (sym (is_update i t))

-- The operation on one job that a batch action repeats.
abbrev pub single : BatchActionKind → Text → Time → Option Op
single batch_pause reason now = some pauses
single batch_resume reason now = some resumes
single batch_quarantine reason now = some (quarantines (batch_reason reason) now)
single batch_cancel reason now = some (cancels now)
single _ reason now = none

-- While the driver does not fail, pausing, resuming, quarantining or cancelling a batch leaves the
-- tables that the method for one job leaves when it is called on each target in turn, its errors
-- ignored.
pub batch_statement-eq-each :
    (a : BatchActionKind) (o : Op) (targets : List ℕ) (reason : Text) (now : Time) (t : Tables)
    → single a reason now ≡ some o
    → (batch_statement a targets reason now (sound t)).1.tables ≡ run_each o targets t
unfolding batch_statement run_op statement update
batch_statement-eq-each batch_pause o targets reason now t e =
    let same : pauses ≡ o = cc in
    (update-eq-each pauses (in_state queued) (with_state paused) (λ i u. ground arith) (λ r. refl)
      (λ r. refl) targets t)
    ∙ ap (λ k. run_each k targets t) same
batch_statement-eq-each batch_resume o targets reason now t e =
    let same : resumes ≡ o = cc in
    (update-eq-each resumes (in_state paused) (with_state queued) (λ i u. ground arith) (λ r. refl)
      (λ r. refl) targets t)
    ∙ ap (λ k. run_each k targets t) same
batch_statement-eq-each batch_quarantine o targets reason now t e =
    let same : quarantines (batch_reason reason) now ≡ o = cc in
    (update-eq-each (quarantines (batch_reason reason) now) always
      (quarantined_row (batch_reason reason) now) (λ i u. ground arith) (λ r. refl) (λ r. refl)
      targets t)
    ∙ ap (λ k. run_each k targets t) same
batch_statement-eq-each batch_cancel o targets reason now t e =
    let same : cancels now ≡ o = cc in
    (update-eq-each (cancels now) cancellable (cancelled_row now) (λ i u. ground arith) (λ r. refl)
      (λ r. refl) targets t)
    ∙ ap (λ k. run_each k targets t) same
batch_statement-eq-each batch_unquarantine o targets reason now t e = cc
batch_statement-eq-each batch_retry o targets reason now t e = cc
batch_statement-eq-each batch_delete o targets reason now t e = cc
batch_statement-eq-each (batch_other name) o targets reason now t e = cc

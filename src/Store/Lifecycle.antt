-- ===== src/Store/Lifecycle.antt =====
-- What each method of the store promises for one job, as a table over the job's state, and that
-- the SQL of Store/Jobs does that and nothing else.
use mirrortools.Prelude.{
  ℕ, ◌≡◌, refl, Bool, true, false, Option, none, some, [], if◌then◌else◌, ◌==◌, nat_has_eq, Text,
  arith,
}
use mirrortools.Job.{
  State, queued, running, paused, completed, failed, quarantined, cancelled, Time,
}
use mirrortools.Store.Tables.{
  job_not_found, not_quarantined, cannot_pause, not_paused, cannot_cancel, cannot_delete, Result,
  ok, err, Row, Tables, Conn, Exec, statement,
}
use mirrortools.Store.Sql.{
  update, delete, find_row, Ascends, find_row-update_at, find_row-delete_at, count-at_id,
}
use mirrortools.Store.Jobs.{
  always, finished_row, quarantined_row, released_row, in_state, with_state, cancellable,
  cancelled_row, deletable, finish_job, quarantine_job, unquarantine_job, pause_job, resume_job,
  cancel_job, delete_job,
}

pub data Op : Type 0 where
  pauses resumes unquarantines deletes : Op
  cancels : Time → Op
  quarantines : Text → Time → Op
  finishes : State → Text → Time → Op

unfoldable pub run_op : Op → ℕ → Exec (Unit {0})
unfolding finish_job quarantine_job unquarantine_job pause_job resume_job cancel_job delete_job
run_op pauses i = pause_job i
run_op resumes i = resume_job i
run_op unquarantines i = unquarantine_job i
run_op deletes i = delete_job i
run_op (cancels now) i = cancel_job i now
run_op (quarantines reason now) i = quarantine_job i reason now
run_op (finishes state msg now) i = finish_job i state msg now

-- The states in which an operation applies.
abbrev pub allows : Op → State → Bool
allows pauses queued = true
allows pauses _ = false
allows resumes paused = true
allows resumes _ = false
allows unquarantines quarantined = true
allows unquarantines _ = false
allows deletes completed = true
allows deletes failed = true
allows deletes cancelled = true
allows deletes quarantined = true
allows deletes _ = false
allows (cancels _) queued = true
allows (cancels _) running = true
allows (cancels _) paused = true
allows (cancels _) _ = false
allows (quarantines _ _) _ = true
allows (finishes _ _ _) _ = true

-- The row that it leaves, if any.
abbrev pub outcome : Op → Row → Option Row
outcome pauses r = some (record r { state = paused })
outcome resumes r = some (record r { state = queued })
outcome unquarantines r = some (record r {
  state = queued;
  quarantine_reason = some [];
  last_error = some [];
  retry_count = 0;
})
outcome deletes r = none
outcome (cancels now) r = some (record r { state = cancelled; finished_at = some now })
outcome (quarantines reason now) r =
    some (record r { state = quarantined; quarantine_reason = some reason; finished_at = some now })
outcome (finishes state msg now) r =
    some (record r { state = state; finished_at = some now; last_error = some msg })

abbrev pub next : Op → Option Row → Option Row
next op none = none
next op (some r) = if allows op r.state then outcome op r else some r

abbrev pub refusal : Op → ℕ → Result (Unit {0})
refusal pauses i = err (cannot_pause i)
refusal resumes i = err (not_paused i)
refusal unquarantines i = err (not_quarantined i)
refusal deletes i = err (cannot_delete i)
refusal (cancels _) i = err (cannot_cancel i)
refusal (quarantines _ _) i = err job_not_found
refusal (finishes _ _ _) i = ok tt

abbrev pub reply : Op → ℕ → Option Row → Result (Unit {0})
reply op i none = refusal op i
reply op i (some r) = if allows op r.state then ok tt else refusal op i

-- A connection whose driver does not fail.
abbrev pub sound : Tables → Conn
sound t = record { tables = t; faults = [] }

abbrev pub row_after : Op → ℕ → Tables → ℕ → Option Row
row_after op i t j = find_row j (run_op op i (sound t)).1.tables.jobs

module _ (n i : ℕ) (t : Tables) (rows : Ascends n t.jobs) where
  -- Over tables whose ids ascend, while the driver does not fail, the answer of each method that
  -- changes one job is what the table `reply` says of the job's row, a job that is not there
  -- included.
  pub run_op-reply : (op : Op) → (run_op op i (sound t)).0 ≡ reply op i (find_row i t.jobs)
  unfolding run_op update delete statement
  run_op-reply pauses = ground (arith, count-at_id (in_state queued) n i t.jobs rows)
  run_op-reply resumes = ground (arith, count-at_id (in_state paused) n i t.jobs rows)
  run_op-reply unquarantines = ground (arith, count-at_id (in_state quarantined) n i t.jobs rows)
  run_op-reply deletes = ground (arith, count-at_id deletable n i t.jobs rows)
  run_op-reply (cancels now) = ground (arith, count-at_id cancellable n i t.jobs rows)
  run_op-reply (quarantines reason now) = ground (arith, count-at_id always n i t.jobs rows)
  run_op-reply (finishes state msg now) = ground arith

  -- Over tables whose ids ascend, while the driver does not fail, each method that changes one job
  -- leaves of that job what the table `next` says of its row, and every other job as it was.
  pub run_op-next :
      (op : Op) (j : ℕ)
      → row_after op i t j ≡ (if i == j then next op (find_row j t.jobs) else find_row j t.jobs)
  unfolding run_op update delete statement
  run_op-next pauses j =
      ground
        (arith, find_row-update_at (in_state queued) (with_state paused) (λ r. refl) i j t.jobs)
  run_op-next resumes j =
      ground
        (arith, find_row-update_at (in_state paused) (with_state queued) (λ r. refl) i j t.jobs)
  run_op-next unquarantines j =
      ground (arith, find_row-update_at (in_state quarantined) released_row (λ r. refl) i j t.jobs)
  run_op-next deletes j = ground (arith, find_row-delete_at deletable n i j t.jobs rows)
  run_op-next (cancels now) j =
      ground (arith, find_row-update_at cancellable (cancelled_row now) (λ r. refl) i j t.jobs)
  run_op-next (quarantines reason now) j =
      ground (arith, find_row-update_at always (quarantined_row reason now) (λ r. refl) i j t.jobs)
  run_op-next (finishes state msg now) j =
      ground (arith, find_row-update_at always (finished_row state msg now) (λ r. refl) i j t.jobs)

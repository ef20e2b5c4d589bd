-- ===== src/Queue/Outcome.antt =====
-- What the end of a run makes of the job in the tables.
use mathlib.Core.Option
use mirrortools.Prelude.{
  ℕ, ◌≡◌, Bool, true, false, Option, none, some, [], ◌++◌, if◌then◌else◌, ◌==◌, nat_has_eq, arith,
  Text, codes, Option-cases,
}
use mirrortools.Job.{completed, cancelled, quarantined, Time}
use mirrortools.Store.Tables.{Row, Tables}
use mirrortools.Store.Sql.{find_row, Ascends}
use mirrortools.Store.Lifecycle.{sound, run_op, finishes, quarantines, run_op-next}
use mirrortools.Store.Retry.{failed_row, fail_and_retry_job-next}
use mirrortools.Queue.{Worker, RunError, is_immediate_quarantine_error, end_failed, end_run}

-- The row of a job whose run failed.
abbrev pub failed_outcome : Text → Option Text → Time → Row → Row
failed_outcome message none now r = failed_row message now r
failed_outcome message (some reason) now r = record r {
  state = quarantined;
  quarantine_reason = some (reason ++ (codes ": " ++ message));
  finished_at = some now;
}

abbrev pub ended_row : Bool → RunError → Time → Row → Row
ended_row true result now r = record r {
  state = cancelled;
  finished_at = some now;
  last_error = some (codes "cancelled by user");
}
ended_row false none now r = record r {
  state = completed;
  finished_at = some now;
  last_error = some [];
}
ended_row false (some message) now r =
    failed_outcome message (is_immediate_quarantine_error message) now r

module _ (w : Worker) (now : Time) (n : ℕ) (t : Tables) (rows : Ascends n t.jobs) where
  end_failed-next :
      (message : Text) (reason : Option Text) (j : ℕ)
      → find_row j (end_failed w.job.id message reason now (sound t)).tables.jobs ≡ (
          if w.job.id == j
          then Option.map (failed_outcome message reason now) (find_row j t.jobs)
          else find_row j t.jobs)
  unfolding end_failed run_op
  end_failed-next message none j = fail_and_retry_job-next w.job.id message now t j
  end_failed-next message (some reason) j = ground (
    arith,
    run_op-next n w.job.id t rows (quarantines (reason ++ (codes ": " ++ message)) now) j,
    Option-cases (find_row j t.jobs),
  )

  -- Over tables whose ids ascend, while the driver does not fail, the end of a worker's run leaves
  -- its job cancelled if its context was cancelled, whatever state the job was in; else completed
  -- if there was no error, quarantined with the reason if the error asks for that, and else as a
  -- failure leaves it; no other job changes.
  pub end_run-next :
      (result : RunError) (j : ℕ)
      → find_row j (end_run w result now (sound t)).tables.jobs ≡ (
          if w.job.id == j
          then Option.map (ended_row w.is_cancelled result now) (find_row j t.jobs)
          else find_row j t.jobs)
  unfolding end_run run_op
  end_run-next result j = of_worker w.is_cancelled result
    where
      of_worker :
          (b : Bool) (result : RunError)
          → find_row j (end_run (record w { is_cancelled = b }) result now (sound t)).tables.jobs
            ≡ (if w.job.id == j
                then Option.map (ended_row b result now) (find_row j t.jobs)
                else find_row j t.jobs)
      of_worker true result = ground (
        arith,
        run_op-next n w.job.id t rows (finishes cancelled (codes "cancelled by user") now) j,
        Option-cases (find_row j t.jobs),
      )
      of_worker false none = ground (
        arith,
        run_op-next n w.job.id t rows (finishes completed [] now) j,
        Option-cases (find_row j t.jobs),
      )
      of_worker false (some message) =
          end_failed-next message (is_immediate_quarantine_error message) j

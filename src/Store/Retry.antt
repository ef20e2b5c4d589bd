-- ===== src/Store/Retry.antt =====
-- Failures, retries and recovery: FailAndRetryJob, RetryJob and RecoverOrphanedJobs of store.go.
use mathlib.Core.Option
use mirrortools.Prelude.{
  ℕ, zero, suc, ◌+◌, ◌≡◌, ◌≢◌, refl, ◌∙◌, Option, none, some, List, [], ◌∷◌, if◌then◌else◌, ◌==◌,
  nat_has_eq, arith, Option-cases, Bool-cases, inl, inr, leb, ltb, Text, count, All,
}
use mathlib.Core.Path.{ap₂}
use mirrortools.Job.{State, queued, running, quarantined, state_has_eq, Time}
use mirrortools.Store.Tables.{no_rows, Result, ok, err, Row, Tables, statement, transaction}
use mirrortools.Store.Sql.{
  update, update_where, query, find_row, find_row-update_at, find_row-update_where,
}
use mirrortools.Store.Jobs.{
  always, orphan, is_running, requeue_orphan, quarantine_orphan, restarted_error, restarted_reason,
  recover_orphaned_jobs, exceeded, exhausted_row, requeued_row, retry_or_quarantine,
  fail_and_retry_job, record_failure,
}
use mirrortools.Store.Lifecycle.{sound}

-- What a failure makes of a job: queued again, or quarantined once its retries are used up.
abbrev pub failed_row : Text → Time → Row → Row
failed_row msg now r =
    if leb r.max_retries (r.retry_count + 1)
    then record r {
      state = quarantined;
      retry_count = r.retry_count + 1;
      last_error = some msg;
      quarantine_reason = some (exceeded r.max_retries msg);
      finished_at = some now;
    }
    else record r { state = queued; retry_count = r.retry_count + 1; last_error = some msg }

abbrev pub failed_reply : Option Row → Result State
failed_reply none = err no_rows
failed_reply (some r) = ok (if leb r.max_retries (r.retry_count + 1) then quarantined else queued)

abbrev pub fail_once : ℕ → Text → Time → Tables → Tables
fail_once i msg now t = (fail_and_retry_job i msg now (sound t)).1.tables

module _ (i : ℕ) (msg : Text) (now : Time) (t : Tables) where
  -- While the driver does not fail, recording a failure answers sql.ErrNoRows for a job that is
  -- not there; else it answers quarantined if the retry count, one more than before, has reached
  -- max_retries, and queued if not.
  pub fail_and_retry_job-reply :
      (fail_and_retry_job i msg now (sound t)).0 ≡ failed_reply (find_row i t.jobs)
  unfolding fail_and_retry_job record_failure query update statement transaction retry_or_quarantine
  fail_and_retry_job-reply = ground arith

  -- While the driver does not fail, recording a failure adds one to the job's retry count and
  -- keeps the message; the job is quarantined, with a reason and a time, if the count has reached
  -- max_retries, and queued if not; no other job changes.
  pub fail_and_retry_job-next :
      (j : ℕ)
      → find_row j (fail_once i msg now t).jobs ≡ (
          if i == j then Option.map (failed_row msg now) (find_row j t.jobs) else find_row j t.jobs)
  unfolding fail_and_retry_job record_failure query update statement transaction retry_or_quarantine
  fail_and_retry_job-next j = elim (Option-cases (find_row i t.jobs)) [
    | inl e ↦ rw e (ground (arith, e))
    | inr (r, e) ↦ elim (Bool-cases (leb r.max_retries (r.retry_count + 1))) [
      | inl full ↦ ground (
        arith,
        e,
        full,
        find_row-update_at always
            (exhausted_row (r.retry_count + 1) msg (exceeded r.max_retries msg) now) (λ x. refl) i j
            t.jobs,
      )
      | inr room ↦ ground (
        arith,
        e,
        room,
        find_row-update_at always (requeued_row (r.retry_count + 1) msg) (λ x. refl) i j t.jobs,
      )
    ]
  ]

-- n failures in a row. FailAndRetryJob does not read the state, so a claim in between would make
-- no difference to the counts.
pub fail_times : ℕ → ℕ → Text → Time → Tables → Tables
fail_times zero i msg now t = t
fail_times (suc n) i msg now t = fail_times n i msg now (fail_once i msg now t)

-- What the failures after the first come to, for a job that is at retry count k.
abbrev pub state_after : ℕ → ℕ → State
state_after limit k = if leb limit k then quarantined else queued

-- After one or more failures in a row of a job that is there, while the driver does not fail, its
-- retry count has grown by their number, its max_retries is as before, and it is quarantined if
-- the count has reached max_retries and queued if not.
pub fail_times-state :
    (n i : ℕ) (msg : Text) (now : Time) (t : Tables) (r : Row)
    → find_row i t.jobs ≡ some r
    → (s : Row) × (find_row i (fail_times (suc n) i msg now t).jobs ≡ some s)
      × (s.retry_count ≡ r.retry_count + suc n)
      × (s.max_retries ≡ r.max_retries)
      × (s.state ≡ state_after r.max_retries (r.retry_count + suc n))
unfolding fail_times
fail_times-state zero i msg now t r e = (
  failed_row msg now r,
  ground (arith, fail_and_retry_job-next i msg now t i, e),
  ground arith,
  ground arith,
  ground arith,
)
fail_times-state (suc n) i msg now t r e =
    let step : find_row i (fail_once i msg now t).jobs ≡ some (failed_row msg now r) =
      ground (arith, fail_and_retry_job-next i msg now t i, e) in
    let (s, found, count, limit, state) =
      fail_times-state n i msg now (fail_once i msg now t) (failed_row msg now r) step in
    let counts : (failed_row msg now r).retry_count ≡ r.retry_count + 1 = ground arith in
    let limits : (failed_row msg now r).max_retries ≡ r.max_retries = ground arith in
    (s, found, omega arith, limit ∙ limits, state ∙ ap₂ state_after limits (omega (arith, counts)))

-- What a restart makes of a job.
abbrev pub recovered_row : Time → Row → Row
recovered_row now r =
    if r.state == running
    then (if ltb r.retry_count r.max_retries
        then record r {
          state = queued;
          retry_count = r.retry_count + 1;
          last_error = some restarted_error;
          finished_at = some now;
        }
        else record r {
          state = quarantined;
          quarantine_reason = some restarted_reason;
          finished_at = some now;
        })
    else r

abbrev pub recovered : Time → Tables → Tables
recovered now t = (recover_orphaned_jobs now (sound t)).1.tables

module _ (now : Time) (t : Tables) where
  -- While the driver does not fail, recovery answers the number of running jobs with retries left;
  -- each of those is queued with one retry more, every other running job is quarantined, and no
  -- other job changes.
  pub recover_orphaned_jobs-next :
      ((recover_orphaned_jobs now (sound t)).0 ≡ ok (count orphan t.jobs))
      × ((j : ℕ)
          → find_row j (recovered now t).jobs ≡ Option.map (recovered_row now) (find_row j t.jobs))
  unfolding recover_orphaned_jobs update statement
  recover_orphaned_jobs-next = (
    refl,
    λ j. ground (
      arith,
      find_row-update_where orphan (requeue_orphan now) (λ r. refl) j t.jobs,
      find_row-update_where is_running (quarantine_orphan now) (λ r. refl) j
          (update_where orphan (requeue_orphan now) t.jobs),
    ),
  )

  none_running :
      (rows : List Row)
      → All (λ r. r.state ≢ running) (update_where is_running (quarantine_orphan now) rows)
  unfolding update_where
  none_running [] = tt
  none_running (r ∷ rs) = (λ h. ground arith, none_running rs)

  -- After a recovery in which the driver does not fail no job is running.
  pub recover_orphaned_jobs_none_running : All (λ r. r.state ≢ running) (recovered now t).jobs
  unfolding recover_orphaned_jobs update statement
  recover_orphaned_jobs_none_running =
      none_running (update_where orphan (requeue_orphan now) t.jobs)

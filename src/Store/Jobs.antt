-- ===== src/Store/Jobs.antt =====
-- The methods of store.go on one job: enqueue, get, finish, fail and retry, quarantine,
-- unquarantine, retry, pause, resume, cancel, delete, and the recovery of orphaned jobs.
-- `now` is the answer of time.Now.
use mirrortools.Prelude.{
  ℕ, zero, suc, ◌+◌, Bool, true, ◌&&◌, ◌||◌, Option, none, some, [], ◌++◌, if◌then◌else◌, ◌==◌,
  nat_has_eq, ltb, leb, nat_eq, Text, codes, text_has_eq, pos, positive_or, format_nat,
}
use mirrortools.Job.{
  State, unset, queued, running, paused, completed, failed, quarantined, cancelled, state_has_eq,
  Job, Time, Platform, extract_root, extract_path, flags_json, set_flags_json,
}
use mirrortools.Store.Tables.{
  StoreError, no_rows, job_not_found, not_quarantined, cannot_pause, not_paused, cannot_cancel,
  cannot_delete, Row, Exec, ◌>>=◌, pure, raise, statement, transaction,
}
use mirrortools.Store.Sql.{update, delete, insert_row, query, find_row, at_id}

-- `if n == 0 { return … }` on the rows affected.
abbrev pub needs_row : StoreError → ℕ → Exec (Unit {0})
needs_row e zero = raise e
needs_row e (suc n) = pure tt

-- COALESCE(column, '')
abbrev pub coalesce : Option Text → Text
coalesce none = []
coalesce (some t) = t

abbrev pub restarted_error : Text
restarted_error = codes "daemon restarted while job was running"

abbrev pub restarted_reason : Text
restarted_reason = codes "daemon restarted and max retries exceeded"

abbrev pub orphan : Row → Bool
orphan r = r.state == running && ltb r.retry_count r.max_retries

abbrev pub requeue_orphan : Time → Row → Row
requeue_orphan now r = record r {
  state = queued;
  retry_count = r.retry_count + 1;
  last_error = some restarted_error;
  finished_at = some now;
}

abbrev pub is_running : Row → Bool
is_running r = r.state == running

abbrev pub quarantine_orphan : Time → Row → Row
quarantine_orphan now r = record r {
  state = quarantined;
  quarantine_reason = some restarted_reason;
  finished_at = some now;
}

-- RecoverOrphanedJobs. Where the second statement fails the code returns the count beside the
-- error, and its caller ignores it.
unfoldable pub recover_orphaned_jobs : Time → Exec ℕ
unfolding update statement
recover_orphaned_jobs now = do
  recovered ← statement (update orphan (requeue_orphan now))
  _ ← statement (update is_running (quarantine_orphan now))
  pure recovered

abbrev pub finished_row : State → Text → Time → Row → Row
finished_row state msg now r = record r {
  state = state;
  finished_at = some now;
  last_error = some msg;
}

abbrev pub always : Row → Bool
always r = true

-- FinishJob: no test of the job's state, nor of whether there is one.
unfoldable pub finish_job : ℕ → State → Text → Time → Exec (Unit {0})
unfolding update statement
finish_job id state msg now = do
  _ ← statement (update (at_id id always) (finished_row state msg now))
  pure tt

-- fmt.Sprintf("exceeded maximum retries (%d): %s", …)
abbrev pub exceeded : ℕ → Text → Text
exceeded limit msg =
    codes "exceeded maximum retries (" ++ (format_nat limit ++ (codes "): " ++ msg))

abbrev pub exhausted_row : ℕ → Text → Text → Time → Row → Row
exhausted_row retries msg reason now r = record r {
  state = quarantined;
  retry_count = retries;
  last_error = some msg;
  quarantine_reason = some reason;
  finished_at = some now;
}

abbrev pub requeued_row : ℕ → Text → Row → Row
requeued_row retries msg r = record r {
  state = queued;
  retry_count = retries;
  last_error = some msg;
}

unfoldable pub retry_or_quarantine : ℕ → Text → Time → Option Row → Exec State
unfolding update statement
retry_or_quarantine id msg now none = raise no_rows
retry_or_quarantine id msg now (some r) =
    let retries = r.retry_count + 1 in
    if leb r.max_retries retries
    then (do
      _ ←
          statement
            (update (at_id id always) (exhausted_row retries msg (exceeded r.max_retries msg) now))
      pure quarantined)
    else (do _ ← statement (update (at_id id always) (requeued_row retries msg)); pure queued)

-- The body of FailAndRetryJob's transaction.
unfoldable pub record_failure : ℕ → Text → Time → Exec State
unfolding retry_or_quarantine statement query find_row
record_failure id msg now = do
  found ← statement (query (λ t. find_row id t.jobs))
  retry_or_quarantine id msg now found

-- FailAndRetryJob
unfoldable pub fail_and_retry_job : ℕ → Text → Time → Exec State
fail_and_retry_job id msg now = transaction (record_failure id msg now)

abbrev pub quarantined_row : Text → Time → Row → Row
quarantined_row reason now r = record r {
  state = quarantined;
  quarantine_reason = some reason;
  finished_at = some now;
}

-- QuarantineJob
unfoldable pub quarantine_job : ℕ → Text → Time → Exec (Unit {0})
unfolding update statement
quarantine_job id reason now = do
  n ← statement (update (at_id id always) (quarantined_row reason now))
  needs_row job_not_found n

abbrev pub in_state : State → Row → Bool
in_state s r = r.state == s

abbrev pub released_row : Row → Row
released_row r = record r {
  state = queued;
  quarantine_reason = some [];
  last_error = some [];
  retry_count = 0;
}

-- UnquarantineJob
unfoldable pub unquarantine_job : ℕ → Exec (Unit {0})
unfolding update statement
unquarantine_job id = do
  n ← statement (update (at_id id (in_state quarantined)) released_row)
  needs_row (not_quarantined id) n

abbrev pub reset_row : Row → Row
reset_row r = record r {
  state = queued;
  last_error = some [];
  quarantine_reason = some [];
  retry_count = 0;
  started_at = none;
  finished_at = none;
}

abbrev pub with_state : State → Row → Row
with_state s r = record r { state = s }

-- PauseJob
unfoldable pub pause_job : ℕ → Exec (Unit {0})
unfolding update statement
pause_job id = do
  n ← statement (update (at_id id (in_state queued)) (with_state paused))
  needs_row (cannot_pause id) n

-- ResumeJob
unfoldable pub resume_job : ℕ → Exec (Unit {0})
unfolding update statement
resume_job id = do
  n ← statement (update (at_id id (in_state paused)) (with_state queued))
  needs_row (not_paused id) n

abbrev pub cancellable : Row → Bool
cancellable r = r.state == queued || r.state == running || r.state == paused

abbrev pub cancelled_row : Time → Row → Row
cancelled_row now r = record r { state = cancelled; finished_at = some now }

-- CancelJob
unfoldable pub cancel_job : ℕ → Time → Exec (Unit {0})
unfolding update statement
cancel_job id now = do
  n ← statement (update (at_id id cancellable) (cancelled_row now))
  needs_row (cannot_cancel id) n

abbrev pub deletable : Row → Bool
deletable r =
    r.state == completed || r.state == failed || r.state == cancelled || r.state == quarantined

-- DeleteJob
unfoldable pub delete_job : ℕ → Exec (Unit {0})
unfolding delete statement
delete_job id = do n ← statement (delete (at_id id deletable)); needs_row (cannot_delete id) n

module _ (p : Platform) where
  -- scanJob and scanJobRow, on a row.
  unfoldable pub scan_row : Row → Job
  unfolding set_flags_json
  scan_row r = record {
    id = r.id;
    method = r.method;
    source = r.source;
    dest_dir = r.dest_dir;
    flags = set_flags_json p r.flags_json;
    state = r.state;
    priority = r.priority;
    created_at = r.created_at;
    started_at = r.started_at;
    finished_at = r.finished_at;
    retry_count = r.retry_count;
    max_retries = pos r.max_retries;
    last_error = coalesce r.last_error;
    quarantine_reason = coalesce r.quarantine_reason;
    site = r.site;
    path = r.path;
  }

  abbrev pub scanned : Option Row → Exec Job
  scanned none = raise job_not_found
  scanned (some r) = pure (scan_row r)

  -- GetJob
  unfoldable pub get_job : ℕ → Exec Job
  unfolding scan_row statement query find_row
  get_job id = do found ← statement (query (λ t. find_row id t.jobs)); scanned found

  -- RetryJob: no test of the job's state.
  unfoldable pub retry_job : ℕ → Exec Job
  unfolding scan_row update statement query find_row
  retry_job id = do
    n ← statement (update (at_id id always) reset_row)
    _ ← needs_row job_not_found n
    found ← statement (query (λ t. find_row id t.jobs))
    scanned found

  -- The defaults that EnqueueJob fills in.
  unfoldable pub with_defaults : Job → Time → Job
  unfolding extract_root extract_path
  with_defaults job now = record job {
    created_at = if nat_eq job.created_at 0 then now else job.created_at;
    state = if job.state == unset then queued else job.state;
    max_retries = pos (positive_or 3 job.max_retries);
    site = if job.site == [] then extract_root p job.source job.method else job.site;
    path = if job.path == [] then extract_path p job.source else job.path;
  }

  -- The columns that the INSERT names; the others take their defaults.
  unfoldable pub new_row : Job → Row
  unfolding flags_json
  new_row job = record {
    id = 0;
    method = job.method;
    source = job.source;
    dest_dir = job.dest_dir;
    flags_json = flags_json p job.flags;
    state = job.state;
    priority = job.priority;
    created_at = job.created_at;
    started_at = none;
    finished_at = none;
    retry_count = job.retry_count;
    max_retries = positive_or 3 job.max_retries;
    last_error = none;
    quarantine_reason = none;
    site = job.site;
    path = job.path;
  }

  -- EnqueueJob
  unfoldable pub enqueue_job : Job → Time → Exec Job
  unfolding with_defaults new_row insert_row statement
  enqueue_job job now = do
    id ← statement (insert_row (new_row (with_defaults job now)))
    pure (let full = with_defaults job now in record full { id = id })

-- ===== src/Queue/Methods.antt =====
-- The methods of queue.go that the server calls, each as the regions that it is made of, in their
-- order. The wake-up of the dispatcher that ends most of them is not a change of state.
use mirrortools.Prelude.{
  ℕ, Bool, true, false, not, Option, none, some, List, [], ◌∷◌, map, if◌then◌else◌, ◌==◌,
  nat_has_eq, text_has_eq, ltb, Text, trim_slash, lookup, remove, contains, ℤ, pos, negsuc,
  positive_or,
}
use mirrortools.Job.{
  Job, State, unset, Time, Platform, SubmitRequest, validate, BatchRequest, BatchResult,
  BatchActionKind, batch_cancel, batch_quarantine,
}
use mirrortools.Store.Tables.{Result, ok, err, source_empty, concurrency_below_one, Conn}
use mirrortools.Store.Jobs.{
  quarantine_job, unquarantine_job, pause_job, resume_job, cancel_job, retry_job, get_job,
  enqueue_job,
}
use mirrortools.Store.Batch.{batch_action, match_prefix}
use mirrortools.Store.Listing.{get_counts}
use mirrortools.Store.Settings.{set_queue_paused, set_queue_concurrency}
use mirrortools.Queue.{Queue, on_store, cancel_token}

-- The job that Enqueue makes of a request.
abbrev pub job_of : SubmitRequest → ℕ → Job
job_of req max_retries = record {
  id = 0;
  method = req.method;
  source = req.source;
  dest_dir = req.dest_dir;
  flags = req.flags;
  state = unset;
  priority = req.priority;
  created_at = 0;
  started_at = none;
  finished_at = none;
  retry_count = 0;
  max_retries = pos max_retries;
  last_error = [];
  quarantine_reason = [];
  site = [];
  path = [];
}

-- The region of Pause and of Resume under the lock; the call of the store follows.
abbrev pub set_paused : Bool → Queue → Queue
set_paused b q = record q { paused = b }

-- Pause, for true, and Resume.
unfoldable pub pause : Bool → Queue → Result (Unit {0}) × Queue
unfolding set_queue_paused
pause b q = on_store (set_queue_paused b) (set_paused b q)

abbrev pub below_one : ℤ → Bool
below_one (pos n) = ltb n 1
below_one (negsuc n) = true

abbrev pub limit_to : ℕ → Queue → Queue
limit_to n q = record q { concurrency = n }

-- SetConcurrency
unfoldable pub set_concurrency : ℤ → Queue → Result (Unit {0}) × Queue
unfolding set_queue_concurrency
set_concurrency n q =
    if below_one n
    then (err concurrency_below_one, q)
    else on_store (set_queue_concurrency n) (limit_to (positive_or 1 n) q)

abbrev pub cancel_entry : Option ℕ → Queue → Queue
cancel_entry none q = q
cancel_entry (some tok) q = record q { workers = cancel_token tok q.workers }

-- The region of CancelJob and of QuarantineJob under the lock.
unfoldable pub cancel_running : ℕ → Queue → Queue
unfolding cancel_token lookup
cancel_running id q = cancel_entry (lookup id q.running_cancels) q

-- CancelJob: a running job is left to its worker.
unfoldable pub cancel : ℕ → Time → Queue → Result (Unit {0}) × Queue
unfolding cancel_job cancel_running lookup
cancel id now q = elim (lookup id q.running_cancels) [
  | none ↦ on_store (cancel_job id now) q
  | some tok ↦ (ok tt, cancel_running id q)
]

-- QuarantineJob
unfoldable pub quarantine : ℕ → Text → Time → Queue → Result (Unit {0}) × Queue
unfolding cancel_running quarantine_job
quarantine id reason now q = on_store (quarantine_job id reason now) (cancel_running id q)

-- PauseJob, ResumeJob and UnquarantineJob
abbrev pub pause_one : ℕ → Queue → Result (Unit {0}) × Queue
pause_one id = on_store (pause_job id)

abbrev pub resume_one : ℕ → Queue → Result (Unit {0}) × Queue
resume_one id = on_store (resume_job id)

abbrev pub unquarantine_one : ℕ → Queue → Result (Unit {0}) × Queue
unquarantine_one id = on_store (unquarantine_job id)

-- cancel(), and delete(q.runningCancels, id)
unfoldable pub cancel_if : Bool → ℕ → ℕ → Queue → Queue
unfolding cancel_token remove
cancel_if false id tok q = q
cancel_if true id tok q = record q {
  workers = cancel_token tok q.workers;
  running_cancels = remove id q.running_cancels;
}

module _ (p : Platform) where
  -- Enqueue
  unfoldable pub enqueue : SubmitRequest → Time → Queue → Result Job × Queue
  unfolding enqueue_job validate
  enqueue req now q =
      if validate req
      then on_store (enqueue_job p (job_of req q.max_retries) now) q
      else (err source_empty, q)

  -- RetryJob
  abbrev pub retry_one : ℕ → Queue → Result Job × Queue
  retry_one id = on_store (retry_job p id)

  abbrev pub is_under : BatchRequest → Result Job → Bool
  is_under req (err e) = false
  is_under req (ok job) = match_prefix p job.source job.site req.prefix (trim_slash req.prefix)

  -- Whether BatchJobs cancels the worker of a job.
  unfoldable pub should_cancel : BatchRequest → ℕ → Conn → Bool × Conn
  unfolding contains get_job match_prefix trim_slash
  should_cancel req id c = elim req.ids [
    | [] ↦
        if not (req.prefix == [])
        then (let (r, c') = get_job p id c in (is_under req r, c'))
        else (false, c)
    | i ∷ is ↦ (contains (i ∷ is) id, c)
  ]

  unfoldable pub cancel_each : BatchRequest → List (ℕ × ℕ) → Queue → Queue
  unfolding should_cancel cancel_if
  cancel_each req [] q = q
  cancel_each req ((id, tok) ∷ rest) q =
      let s = should_cancel req id q.conn in
      cancel_each req rest (cancel_if s.0 id tok (record q { conn = s.1 }))

  abbrev pub stops_workers : BatchActionKind → Bool
  stops_workers batch_cancel = true
  stops_workers batch_quarantine = true
  stops_workers _ = false

  -- The region of BatchJobs under the lock.
  unfoldable pub cancel_batch : BatchRequest → Queue → Queue
  unfolding cancel_each
  cancel_batch req q = if stops_workers req.action then cancel_each req q.running_cancels q else q

  -- BatchJobs
  unfoldable pub batch_jobs : BatchRequest → Time → Queue → Result BatchResult × Queue
  unfolding cancel_batch batch_action
  batch_jobs req now q = on_store (batch_action p req now) (cancel_batch req q)

pub record QueueStatus : Type 0 where
  pub is_paused : Bool
  pub limit : ℕ
  pub retries : ℕ
  pub counts : List (State × ℕ)
  pub active : List Job

abbrev pub status_of : Queue → Result (List (State × ℕ)) → Result QueueStatus
status_of q (err e) = err e
status_of q (ok m) = ok (record {
  is_paused = q.paused;
  limit = q.concurrency;
  retries = q.max_retries;
  counts = m;
  active = map (λ e. e.1) q.active_jobs;
})

-- GetStatus, the time since the start left out.
unfoldable pub get_status : Queue → Result QueueStatus × Queue
unfolding get_counts
get_status q = let (r, q') = on_store get_counts q in (status_of q r, q')

-- ===== src/Server/Queues.antt =====
-- The handlers that call the queue.
use mirrortools.Prelude.{
  ℕ, true, false, Option, none, some, List, [], ◌∷◌, ◌++◌, if◌then◌else◌, ◌==◌, Text, codes,
  text_has_eq, ℤ, pos, format_int, atoi, split, trim_space,
}
use mirrortools.Job.{
  State, queued, running, paused, completed, failed, quarantined, cancelled, Time, Platform,
  BatchRequest, BatchActionKind, batch_pause, batch_resume, batch_quarantine, batch_unquarantine,
  batch_cancel, batch_retry, batch_delete, batch_other,
}
use mirrortools.Store.Tables.{StoreError, job_not_found}
use mirrortools.Store.Jobs.{get_job, delete_job}
use mirrortools.Store.Listing.{JobFilter, list_jobs}
use mirrortools.Store.Logs.{get_logs}
use mirrortools.Queue.{on_store}
use mirrortools.Queue.Methods.{
  pause, set_concurrency, cancel, quarantine, pause_one, resume_one, unquarantine_one, retry_one,
  batch_jobs, get_status, below_one,
}
use mirrortools.Server.{
  Server, Reply, json, message, status, one_job, job_list, log_list, batch_result, queue_status,
  limit, answer, show_result, with_id, row_id, id_event,
}

abbrev internal_error : StoreError → ℕ
internal_error e = 500

-- handleQueueStatus
unfoldable pub handle_queue_status : Server → Reply × Server
unfolding show_result get_status
handle_queue_status s = show_result internal_error queue_status (get_status s.queue) s

-- handleQueuePause and handleQueueResume
unfoldable pub handle_queue_pause : Server → Reply × Server
unfolding answer pause
handle_queue_pause s =
    answer 500 (λ _. (codes "queue:paused")) (λ _. json 200 (status (codes "paused")))
      (pause true s.queue) s

unfoldable pub handle_queue_resume : Server → Reply × Server
unfolding answer pause
handle_queue_resume s =
    answer 500 (λ _. (codes "queue:resumed")) (λ _. json 200 (status (codes "resumed")))
      (pause false s.queue) s

-- handleQueueConcurrency, with the number of the body; none where it cannot be decoded.
unfoldable pub handle_queue_concurrency : Option ℤ → Server → Reply × Server
unfolding answer set_concurrency format_int
handle_queue_concurrency none s = (json 400 (message (codes "invalid request body")), s)
handle_queue_concurrency (some n) s =
    if below_one n
    then (json 400 (message (codes "concurrency must be at least 1")), s)
    else answer 500 (λ _. (codes "concurrency:" ++ format_int n)) (λ _. json 200 (limit n))
        (set_concurrency n s.queue) s

-- State(s), where it is Valid.
unfoldable pub state_named : Text → Option State
state_named s =
    if s == codes "queued"
    then some queued
    else if s == codes "running"
    then some running
    else if s == codes "paused"
    then some paused
    else if s == codes "completed"
    then some completed
    else if s == codes "failed"
    then some failed
    else if s == codes "quarantined"
    then some quarantined
    else if s == codes "cancelled"
    then some cancelled
    else none

unfoldable pub valid_states : List Text → List State
unfolding state_named trim_space
valid_states [] = []
valid_states (s ∷ rest) = elim (state_named (trim_space s)) [
  | none ↦ valid_states rest
  | some st ↦ st ∷ valid_states rest
]

number_of : Text → ℤ
unfolding atoi
number_of s = if s == [] then pos 0 else atoi s

-- The filter of handleListJobs, from the query's values.
unfoldable pub filter_of : (Text → Text) → JobFilter
unfolding valid_states split number_of
filter_of get = record {
  states =
      if get (codes "state") == [] then [] else valid_states (split b',' (get (codes "state")));
  method = get (codes "method");
  site = get (codes "site");
  prefix = get (codes "prefix");
  order_by = get (codes "order_by");
  limit = number_of (get (codes "limit"));
  offset = number_of (get (codes "offset"));
}

abbrev get_job_code : StoreError → ℕ
get_job_code job_not_found = 404
get_job_code _ = 500

action_text : BatchActionKind → Text
action_text batch_pause = codes "pause"
action_text batch_resume = codes "resume"
action_text batch_quarantine = codes "quarantine"
action_text batch_unquarantine = codes "unquarantine"
action_text batch_cancel = codes "cancel"
action_text batch_retry = codes "retry"
action_text batch_delete = codes "delete"
action_text (batch_other s) = s

-- handleCancelJob, handlePauseJob, handleResumeJob, handleUnquarantineJob and handleDeleteJob
unfoldable pub handle_cancel_job : Time → Text → Server → Reply × Server
unfolding with_id answer cancel id_event
handle_cancel_job now id = with_id id (λ n s.
    answer 500 (λ _. (id_event (codes "cancelled") n)) (λ _. json 200 (status (codes "cancelled")))
      (cancel (row_id n) now s.queue) s)

unfoldable pub handle_pause_job : Text → Server → Reply × Server
unfolding with_id answer id_event
handle_pause_job id = with_id id (λ n s.
    answer 400 (λ _. (id_event (codes "paused") n)) (λ _. json 200 (status (codes "paused")))
      (pause_one (row_id n) s.queue) s)

unfoldable pub handle_resume_job : Text → Server → Reply × Server
unfolding with_id answer id_event
handle_resume_job id = with_id id (λ n s.
    answer 400 (λ _. (id_event (codes "resumed") n)) (λ _. json 200 (status (codes "resumed")))
      (resume_one (row_id n) s.queue) s)

unfoldable pub handle_unquarantine_job : Text → Server → Reply × Server
unfolding with_id answer id_event
handle_unquarantine_job id = with_id id (λ n s.
    answer 400 (λ _. (id_event (codes "unquarantined") n))
      (λ _. json 200 (status (codes "unquarantined"))) (unquarantine_one (row_id n) s.queue) s)

unfoldable pub handle_delete_job : Text → Server → Reply × Server
unfolding with_id answer delete_job id_event
handle_delete_job id = with_id id (λ n s.
    answer 400 (λ _. (id_event (codes "deleted") n)) (λ _. json 200 (status (codes "deleted")))
      (on_store (delete_job (row_id n)) s.queue) s)

-- handleQuarantineJob, with the reason that the body gives, if any.
unfoldable pub handle_quarantine_job : Time → Text → Text → Server → Reply × Server
unfolding with_id answer quarantine id_event
handle_quarantine_job now reason id = with_id id (λ n s.
    answer 500 (λ _. (id_event (codes "quarantined") n))
      (λ _. json 200 (status (codes "quarantined")))
      (quarantine (row_id n) (if reason == [] then codes "manual quarantine via API" else reason)
        now s.queue)
      s)

-- handleGetLogs
unfoldable pub handle_get_logs : (Text → Text) → Text → Server → Reply × Server
unfolding with_id show_result get_logs atoi
handle_get_logs get id = with_id id (λ n s.
    show_result internal_error log_list
      (on_store (get_logs (row_id n) (atoi (get (codes "limit"))) (atoi (get (codes "offset"))))
        s.queue)
      s)

module _ (p : Platform) where
  -- handleListJobs
  unfoldable pub handle_list_jobs : (Text → Text) → Server → Reply × Server
  unfolding show_result list_jobs filter_of
  handle_list_jobs get s =
      show_result internal_error job_list (on_store (list_jobs p (filter_of get)) s.queue) s

  -- handleGetJob
  unfoldable pub handle_get_job : Text → Server → Reply × Server
  unfolding with_id show_result get_job
  handle_get_job id =
      with_id id
        (λ n s. show_result get_job_code one_job (on_store (get_job p (row_id n)) s.queue) s)

  -- handleRetryJob
  unfoldable pub handle_retry_job : Text → Server → Reply × Server
  unfolding with_id answer id_event
  handle_retry_job id = with_id id (λ n s.
      answer 500 (λ _. (id_event (codes "retried") n)) (λ j. json 200 (one_job j))
        (retry_one p (row_id n) s.queue) s)

  -- handleBatchJobs; none where the body cannot be decoded.
  unfoldable pub handle_batch_jobs : Time → Option BatchRequest → Server → Reply × Server
  unfolding answer batch_jobs action_text
  handle_batch_jobs now none s = (json 400 (message (codes "invalid JSON")), s)
  handle_batch_jobs now (some req) s =
      if action_text req.action == []
      then (json 400 (message (codes "missing action in batch request")), s)
      else answer 500 (λ _. (codes "jobs:batch:" ++ action_text req.action))
          (λ r. json 200 (batch_result r)) (batch_jobs p req now s.queue) s

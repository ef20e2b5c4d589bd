-- ===== src/Queue.antt =====
-- internal/daemon/queue.go: the dispatcher, the workers, and the methods that the server calls.
-- Goroutines interleave between the regions that hold a lock, so each region of the queue's lock
-- and each call of the store is one function here; Queue.Steps lets them interleave. A worker's
-- context is a token: `cancelled` says that it was cancelled. The channels notifyCh and the timers
-- only decide when the dispatcher looks again, which it may do at any time.
pub mod Methods
pub mod Steps
pub mod Bound
pub mod Outcome
pub mod Restart
pub mod Paused
use mirrortools.Prelude.{
  ℕ, suc, Bool, true, false, ◌||◌, not, Option, none, some, List, [], ◌∷◌, ◌++◌, map, if◌then◌else◌,
  ◌==◌, nat_has_eq, text_has_eq, leb, ltb, length, Text, codes, has_infix, to_lower, trim_slash,
  lookup, insert, remove, contains, select, ℤ, pos, positive_or,
}
use mirrortools.Job.{
  Job, State, unset, completed, cancelled, Time, Flags, Platform, SubmitRequest, validate,
  BatchRequest, BatchResult, BatchActionKind, batch_cancel, batch_quarantine,
}
use mirrortools.Store.Tables.{
  Result, ok, err, StoreError, source_empty, concurrency_below_one, Conn, Exec,
}
use mirrortools.Store.Jobs.{
  recover_orphaned_jobs, finish_job, fail_and_retry_job, quarantine_job, unquarantine_job,
  pause_job, resume_job, cancel_job, retry_job, get_job, enqueue_job,
}
use mirrortools.Store.Claim.{claim_next_job}
use mirrortools.Store.Batch.{batch_action, match_prefix}
use mirrortools.Store.Logs.{append_log}
use mirrortools.Store.Listing.{get_counts}
use mirrortools.Store.Settings.{set_queue_paused, set_queue_concurrency, get_queue_config}

-- Where the dispatcher is: before the loop or after it, at the loop's start, past the test of the
-- limits, or with a job that it has claimed and not registered.
pub data Phase : Type 0 where
  idle looking claiming : Phase
  claimed : Job → Phase

-- What the executor returns: no error, or an error's text.
abbrev pub RunError : Type 0
RunError = Option Text

-- Where a worker is: it runs the executor; it has asked whether its context is cancelled, and has
-- the run's error; or its last call of the store is made, and its deferred functions have not run.
pub data Stage : Type 0 where
  executing leaving : Stage
  ended : Bool → RunError → Stage

pub record Worker : Type 0 where
  pub token : ℕ
  pub job : Job
  pub is_cancelled : Bool
  pub stage : Stage

pub record Queue : Type 0 where
  pub conn : Conn
  pub paused : Bool
  pub concurrency : ℕ
  pub max_retries : ℕ
  pub running_cancels : List (ℕ × ℕ)
  pub active_jobs : List (ℕ × Job)
  pub stopping : Bool
  pub phase : Phase
  pub workers : List Worker
  pub next_token : ℕ

-- NewQueue
abbrev pub new_queue : Conn → ℤ → ℤ → Queue
new_queue conn concurrency max_retries = record {
  conn = conn;
  paused = false;
  concurrency = positive_or 2 concurrency;
  max_retries = positive_or 3 max_retries;
  running_cancels = [];
  active_jobs = [];
  stopping = false;
  phase = idle;
  workers = [];
  next_token = 0;
}

-- A call of the store.
abbrev pub on_store {ℓ} : {A : Type ℓ} → Exec A → Queue → Result A × Queue
on_store m q = let (r, c) = m q.conn in (r, record q { conn = c })

abbrev pub load_settings : Result (Bool × ℕ) → Queue → Queue
load_settings (err e) q = q
load_settings (ok s) q = record q {
  paused = s.0;
  concurrency = if ltb 0 s.1 then s.1 else q.concurrency;
}

-- Start: errors of the store are ignored, and the dispatcher begins.
unfoldable pub start : Time → Queue → Queue
unfolding recover_orphaned_jobs get_queue_config
start now q =
    let (n, recovered) = on_store (recover_orphaned_jobs now) q in
    let (settings, read) = on_store get_queue_config recovered in
    let loaded = load_settings settings read in record loaded { phase = looking }

-- The cancel functions of Go: a context that is cancelled stays so.
unfoldable pub cancel_token : ℕ → List Worker → List Worker
cancel_token tok [] = []
cancel_token tok (w ∷ ws) =
    (if w.token == tok then record w { is_cancelled = true } else w) ∷ cancel_token tok ws

unfoldable pub cancel_all : List (ℕ × ℕ) → List Worker → List Worker
unfolding cancel_token
cancel_all [] ws = ws
cancel_all ((id, tok) ∷ rest) ws = cancel_all rest (cancel_token tok ws)

-- Stop: close(q.stopCh), and the region under the lock. It then waits for the workers.
abbrev pub stop : Queue → Queue
stop q = record q { stopping = true }

unfoldable pub stop_workers : Queue → Queue
unfolding cancel_all
stop_workers q = record q { workers = cancel_all q.running_cancels q.workers; running_cancels = [] }

-- The start of the dispatcher's loop.
abbrev pub look : Queue → Queue
look q =
    if q.stopping
    then record q { phase = idle }
    else if q.paused || leb q.concurrency (length q.active_jobs)
    then q
    else record q { phase = claiming }

abbrev pub after_claim : Result Job → Queue → Queue
after_claim (ok job) q = record q { phase = claimed job }
after_claim (err e) q = record q { phase = looking }

module _ (p : Platform) where
  -- The dispatcher's claim.
  unfoldable pub try_claim : Time → Queue → Queue
  unfolding claim_next_job
  try_claim now q = let (r, q') = on_store (claim_next_job p now) q in after_claim r q'

-- The dispatcher's region under the lock, and the worker that it starts.
unfoldable pub register : Job → Queue → Queue
unfolding insert
register job q = record q {
  active_jobs = insert job.id job q.active_jobs;
  running_cancels = insert job.id q.next_token q.running_cancels;
  workers =
      q.workers
      ++ record { token = q.next_token; job = job; is_cancelled = false; stage = executing } ∷ [];
  next_token = suc q.next_token;
  phase = looking;
}

module _ (p : Platform) where
  unfoldable pub dispatch_in : Phase → Time → Queue → Queue
  unfolding try_claim register
  dispatch_in idle now q = q
  dispatch_in looking now q = look q
  dispatch_in claiming now q = try_claim p now q
  dispatch_in (claimed job) now q = register job q

  -- dispatchLoop: what the dispatcher does next.
  unfoldable pub dispatch : Time → Queue → Queue
  unfolding dispatch_in
  dispatch now q = dispatch_in q.phase now q

has_any : Text → List Text → Bool
unfolding has_infix
has_any s [] = false
has_any s (w ∷ ws) = has_infix s w || has_any s ws

-- isImmediateQuarantineError, on the text of an error.
unfoldable pub is_immediate_quarantine_error : Text → Option Text
unfolding has_any to_lower
is_immediate_quarantine_error message =
    let msg = to_lower message in
    if has_any msg (codes "password" ∷ codes "auth failed" ∷ codes "invalid credentials" ∷ [])
    then some (codes "Authentication or password failed")
    else if has_any msg
        (codes "403 forbidden" ∷ codes "account locked" ∷ codes "access restricted" ∷ [])
    then some (codes "Access denied or account restricted (HTTP 403)")
    else if has_any msg (codes "cookie rotation" ∷ codes "session no longer valid" ∷ [])
    then some (codes "Session/cookies expired or invalid")
    else none

abbrev pub forget_result {ℓ} : {A : Type ℓ} → Exec A → Conn → Conn
forget_result m c = (m c).1

unfoldable pub end_failed : ℕ → Text → Option Text → Time → Conn → Conn
unfolding quarantine_job fail_and_retry_job
end_failed id message none now = forget_result (fail_and_retry_job id message now)
end_failed id message (some reason) now =
    forget_result (quarantine_job id (reason ++ (codes ": " ++ message)) now)

-- The last call of the store that a worker makes, by what ctx.Err said; its error is only logged.
unfoldable pub end_run : Worker → RunError → Time → Conn → Conn
unfolding end_failed finish_job is_immediate_quarantine_error
end_run w result now c =
    if w.is_cancelled
    then forget_result (finish_job w.job.id cancelled (codes "cancelled by user") now) c
    else elim result [
      | none ↦ forget_result (finish_job w.job.id completed [] now) c
      | some message ↦ end_failed w.job.id message (is_immediate_quarantine_error message) now c
    ]

-- The deferred region under the lock: by the job's id, whichever worker's entries these are.
unfoldable pub leave : Worker → Queue → Queue
unfolding remove
leave w q = record q {
  active_jobs = remove w.job.id q.active_jobs;
  running_cancels = remove w.job.id q.running_cancels;
}

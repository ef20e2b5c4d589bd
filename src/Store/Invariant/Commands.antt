-- ===== src/Store/Invariant/Commands.antt =====
-- Every call of the store keeps the tables well formed, and so does any sequence of calls.

use mirrortools.Store.Lifecycle.{
  Op, run_op, pauses, resumes, unquarantines, deletes, cancels, quarantines, finishes,
}
use mirrortools.Prelude.{ℕ, ◌≡◌, Bool, true, List, [], ◌∷◌, Text, ℤ, text_has_eq, All}
use mirrortools.Job.{valid, Job, Time, Platform, BatchRequest}
use mirrortools.Store.Tables.{Conn, Exec, ◌>>=◌, pure}
use mirrortools.Store.Jobs.{
  recover_orphaned_jobs, fail_and_retry_job, get_job, retry_job, enqueue_job,
}
use mirrortools.Store.Claim.{claim_next_job}
use mirrortools.Store.Batch.{batch_action}
use mirrortools.Store.Logs.{append_log}
use mirrortools.Store.Settings.{set_queue_paused, set_queue_concurrency}
use mirrortools.Store.Keeps.{Keeps, Keeps-pure, Keeps-bind}
use mirrortools.Store.Invariant.{IsValid}
use mirrortools.Store.Invariant.Methods.{
  recover_orphaned_jobs-Keeps, finish_job-Keeps, fail_and_retry_job-Keeps, quarantine_job-Keeps,
  unquarantine_job-Keeps, pause_job-Keeps, resume_job-Keeps, cancel_job-Keeps, delete_job-Keeps,
  put_setting-Keeps, append_log-Keeps,
}
use mirrortools.Store.Invariant.Scans.{
  get_job-Keeps, retry_job-Keeps, claim_next_job-Keeps, enqueue_job-Keeps, batch_action-Keeps,
}

-- The calls that the daemon makes of the store, the reads left out that answer from one query.
pub data Command : Type 0 where
  enqueue : Job → Command
  get retry : ℕ → Command
  claims recovers : Command
  fails : ℕ → Text → Command
  op : Op → ℕ → Command
  batch : BatchRequest → Command
  logs_line : ℕ → Text → Text → Command
  sets_paused : Bool → Command
  sets_concurrency : ℤ → Command

-- FinishJob is called with known states only.
abbrev pub IsKnown : Command → Type 0
IsKnown (op (finishes s msg now) i) = valid s ≡ true
IsKnown _ = Unit

forget : {A : Type 0} → Exec A → Exec (Unit {0})
forget m = m >>= λ _. pure tt

module _ (p : Platform) where
  pub command : Time → Command → Exec (Unit {0})
  unfolding forget
  command now (enqueue job) = forget (enqueue_job p job now)
  command now (get i) = forget (get_job p i)
  command now (retry i) = forget (retry_job p i)
  command now claims = forget (claim_next_job p now)
  command now recovers = forget (recover_orphaned_jobs now)
  command now (fails i msg) = forget (fail_and_retry_job i msg now)
  command now (op o i) = run_op o i
  command now (batch req) = forget (batch_action p req now)
  command now (logs_line i stream msg) = append_log i stream msg now
  command now (sets_paused b) = set_queue_paused b
  command now (sets_concurrency n) = set_queue_concurrency n

  -- What follows a call does not depend on whether it returned an error.
  pub commands : List (Time × Command) → Conn → Conn
  commands [] c = c
  commands ((now, a) ∷ calls) c = commands calls (command now a c).1

  forget-Keeps : {A : Type 0} (m : Exec A) → Keeps IsValid m → Keeps IsValid (forget m)
  unfolding forget
  forget-Keeps m k = Keeps-bind m _ k (λ a. Keeps-pure tt)

  run_op-Keeps : (o : Op) (i : ℕ) → IsKnown (op o i) → Keeps IsValid (run_op o i)
  unfolding run_op
  run_op-Keeps pauses i h = pause_job-Keeps i
  run_op-Keeps resumes i h = resume_job-Keeps i
  run_op-Keeps unquarantines i h = unquarantine_job-Keeps i
  run_op-Keeps deletes i h = delete_job-Keeps i
  run_op-Keeps (cancels now) i h = cancel_job-Keeps i now
  run_op-Keeps (quarantines reason now) i h = quarantine_job-Keeps i reason now
  run_op-Keeps (finishes s msg now) i h = finish_job-Keeps i s msg now h

  command-Keeps : (now : Time) (a : Command) → IsKnown a → Keeps IsValid (command now a)
  unfolding command set_queue_paused set_queue_concurrency
  command-Keeps now (enqueue job) h = forget-Keeps _ (enqueue_job-Keeps p job now)
  command-Keeps now (get i) h = forget-Keeps _ (get_job-Keeps p i)
  command-Keeps now (retry i) h = forget-Keeps _ (retry_job-Keeps p i)
  command-Keeps now claims h = forget-Keeps _ (claim_next_job-Keeps p now)
  command-Keeps now recovers h = forget-Keeps _ (recover_orphaned_jobs-Keeps now)
  command-Keeps now (fails i msg) h = forget-Keeps _ (fail_and_retry_job-Keeps i msg now)
  command-Keeps now (op o i) h = run_op-Keeps o i h
  command-Keeps now (batch req) h = forget-Keeps _ (batch_action-Keeps p req now)
  command-Keeps now (logs_line i stream msg) h = append_log-Keeps i stream msg now
  command-Keeps now (sets_paused b) h = put_setting-Keeps _ _
  command-Keeps now (sets_concurrency n) h = put_setting-Keeps _ _

  -- After any sequence of calls of the store, each FinishJob with a known state, made of well-
  -- formed tables, whichever calls the driver refuses: ids ascend below the counters, every log
  -- line has its job, every job is in a known state and may be tried at least once, and no setting
  -- is stored twice.
  pub commands-IsValid :
      (calls : List (Time × Command)) (c : Conn)
      → All (λ a. IsKnown a.1) calls
      → IsValid c.tables
      → IsValid (commands calls c).tables
  unfolding commands
  commands-IsValid [] c h v = v
  commands-IsValid ((now, a) ∷ calls) c h v =
      commands-IsValid calls (command now a c).1 h.1 ((command-Keeps now a h.0).at c v)

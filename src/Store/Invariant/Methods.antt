-- ===== src/Store/Invariant/Methods.antt =====
-- Every statement of the store and every method that changes one job keep the tables well formed.
use mirrortools.Store.Settings.RoundTrip.{insert-UniqueKeys}
use mirrortools.Prelude.{
  ℕ, zero, suc, ◌+◌, ◌≡◌, refl, Bool, true, false, Option, none, some, if◌then◌else◌, Text, leb,
  text_has_eq,
}
use mirrortools.Job.{State, queued, paused, quarantined, valid, Time, JobLog}
use mirrortools.Store.Tables.{StoreError, Row, Tables, Exec, statement}
use mirrortools.Store.Sql.{update, delete, insert_log, query, at_id}
use mirrortools.Store.Jobs.{
  needs_row, always, orphan, requeue_orphan, is_running, quarantine_orphan, recover_orphaned_jobs,
  finished_row, finish_job, exceeded, exhausted_row, requeued_row, retry_or_quarantine,
  record_failure, fail_and_retry_job, quarantined_row, quarantine_job, in_state, released_row,
  unquarantine_job, with_state, pause_job, resume_job, cancellable, cancelled_row, cancel_job,
  delete_job,
}
use mirrortools.Store.Logs.{append_log}
use mirrortools.Store.Settings.{put_setting}
use mirrortools.Store.Keeps.{
  Keeps, Keeps-statement, Keeps-pure, Keeps-raise, Keeps-bind, Keeps-transaction, keeps_rules,
}
use mirrortools.Store.Invariant.{
  IsValid, IsMild, update-IsValid, insert_log-IsValid, delete-IsValid,
}

-- An UPDATE that sets a known state and leaves the id and the limit alone.
module _ (f : Row → Row) where
  abbrev pub Keeping : Type 0
  Keeping =
      (r : Row)
      → ((f r).id ≡ r.id) × (valid (f r).state ≡ true) × ((f r).max_retries ≡ r.max_retries)

  mild : Keeping → IsMild f
  mild k = record {
    keeps_id = λ r. (k r).0;
    keeps_sound = λ r s. record { known = (k r).1; tries = rw (k r).2 s.tries };
  }

  pub update-Keeps : (p : Row → Bool) → Keeping → Keeps IsValid (statement (update p f))
  update-Keeps p k = Keeps-statement (update p f) (update-IsValid p f (mild k))

pub delete-Keeps : (p : Row → Bool) → Keeps IsValid (statement (delete p))
delete-Keeps p = Keeps-statement (delete p) (delete-IsValid p)

pub query-Keeps : {A : Type 0} (f : Tables → A) → Keeps IsValid (statement (query f))
query-Keeps f = Keeps-statement (query f) (λ t h. unfold query in h)

pub needs_row-Keeps : (e : StoreError) (n : ℕ) → Keeps IsValid (needs_row e n)
needs_row-Keeps e zero = Keeps-raise e
needs_row-Keeps e (suc n) = Keeps-pure tt

pub ruleset valid_rules = (keeps_rules, query-Keeps, delete-Keeps, needs_row-Keeps)

pub recover_orphaned_jobs-Keeps : (now : Time) → Keeps IsValid (recover_orphaned_jobs now)
unfolding recover_orphaned_jobs valid
recover_orphaned_jobs-Keeps now = search (
  valid_rules,
  update-Keeps (requeue_orphan now) orphan (λ r. (refl, refl, refl)),
  update-Keeps (quarantine_orphan now) is_running (λ r. (refl, refl, refl)),
)

pub finish_job-Keeps :
    (i : ℕ) (s : State) (msg : Text) (now : Time)
    → valid s ≡ true
    → Keeps IsValid (finish_job i s msg now)
unfolding finish_job
finish_job-Keeps i s msg now h =
    search
      (valid_rules, update-Keeps (finished_row s msg now) (at_id i always) (λ r. (refl, h, refl)))

pub if-Keeps :
    {A : Type 0} (b : Bool) (m k : Exec A)
    → Keeps IsValid m
    → Keeps IsValid k
    → Keeps IsValid (if b then m else k)
if-Keeps true m k h l = h
if-Keeps false m k h l = l

retry_or_quarantine-Keeps :
    (i : ℕ) (msg : Text) (now : Time) (o : Option Row)
    → Keeps IsValid (retry_or_quarantine i msg now o)
unfolding retry_or_quarantine valid
retry_or_quarantine-Keeps i msg now none = search valid_rules
retry_or_quarantine-Keeps i msg now (some r) =
    if-Keeps (leb r.max_retries (r.retry_count + 1)) _ _
      (search (
        valid_rules,
        update-Keeps (exhausted_row (r.retry_count + 1) msg (exceeded r.max_retries msg) now)
            (at_id i always) (λ x. (refl, refl, refl)),
      ))
      (search (
        valid_rules,
        update-Keeps (requeued_row (r.retry_count + 1) msg) (at_id i always)
            (λ x. (refl, refl, refl)),
      ))

pub fail_and_retry_job-Keeps :
    (i : ℕ) (msg : Text) (now : Time) → Keeps IsValid (fail_and_retry_job i msg now)
unfolding fail_and_retry_job record_failure
fail_and_retry_job-Keeps i msg now = search (valid_rules, retry_or_quarantine-Keeps)

pub quarantine_job-Keeps :
    (i : ℕ) (reason : Text) (now : Time) → Keeps IsValid (quarantine_job i reason now)
unfolding quarantine_job valid
quarantine_job-Keeps i reason now = search (
  valid_rules,
  update-Keeps (quarantined_row reason now) (at_id i always) (λ r. (refl, refl, refl)),
)

pub unquarantine_job-Keeps : (i : ℕ) → Keeps IsValid (unquarantine_job i)
unfolding unquarantine_job valid
unquarantine_job-Keeps i = search (
  valid_rules,
  update-Keeps released_row (at_id i (in_state quarantined)) (λ r. (refl, refl, refl)),
)

pub pause_job-Keeps : (i : ℕ) → Keeps IsValid (pause_job i)
unfolding pause_job valid
pause_job-Keeps i = search (
  valid_rules,
  update-Keeps (with_state paused) (at_id i (in_state queued)) (λ r. (refl, refl, refl)),
)

pub resume_job-Keeps : (i : ℕ) → Keeps IsValid (resume_job i)
unfolding resume_job valid
resume_job-Keeps i = search (
  valid_rules,
  update-Keeps (with_state queued) (at_id i (in_state paused)) (λ r. (refl, refl, refl)),
)

pub cancel_job-Keeps : (i : ℕ) (now : Time) → Keeps IsValid (cancel_job i now)
unfolding cancel_job valid
cancel_job-Keeps i now =
    search (
      valid_rules,
      update-Keeps (cancelled_row now) (at_id i cancellable) (λ r. (refl, refl, refl)),
    )

pub delete_job-Keeps : (i : ℕ) → Keeps IsValid (delete_job i)
unfolding delete_job
delete_job-Keeps i = search valid_rules

pub put_setting-Keeps : (k v : Text) → Keeps IsValid (statement (put_setting k v))
unfolding put_setting
put_setting-Keeps k v = Keeps-statement (put_setting k v) (λ t h. record {
  ascends = h.ascends;
  fresh = h.fresh;
  counted = h.counted;
  sound = h.sound;
  parents = h.parents;
  log_order = h.log_order;
  log_fresh = h.log_fresh;
  log_counted = h.log_counted;
  keys = insert-UniqueKeys k v t.settings h.keys;
})

pub append_log-Keeps :
    (i : ℕ) (stream msg : Text) (now : Time) → Keeps IsValid (append_log i stream msg now)
unfolding append_log
append_log-Keeps i stream msg now =
    let line : JobLog = record {
      id = 0;
      job_id = i;
      timestamp = now;
      stream = stream;
      message = msg;
    } in
    Keeps-statement (insert_log line) (insert_log-IsValid line)

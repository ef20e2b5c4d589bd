-- ===== src/Queue/Bound.antt =====
-- How many jobs the dispatcher has registered at a time, and how many it starts once paused.
use mirrortools.Prelude.{
  ℕ, ◌+◌, ◌≤◌, ◌≡◌, refl, Bool, true, false, ◌||◌, Option, none, some, List, [], ◌∷◌, if◌then◌else◌,
  nat_has_eq, arith, ℤ, Text, ◌∙◌, lookup, leb, length, insert, remove, All, Bool-cases, inl, inr,
}
use mirrortools.Job.{Job, Time, Platform, BatchRequest}
use mirrortools.Store.Tables.{Result, ok, err, Conn}
use mirrortools.Store.Claim.{claim_next_job}
use mirrortools.Store.Jobs.{recover_orphaned_jobs}
use mirrortools.Store.Settings.{get_queue_config}
use mirrortools.Queue.{
  start, new_queue, load_settings, on_store, dispatch_in, after_claim, RunError, Queue, Phase, idle,
  looking, claiming, claimed, Worker, dispatch, try_claim, register, leave, stop_workers, look,
  Stage, executing, leaving, ended,
}
use mirrortools.Queue.Methods.{
  cancel_running, cancel_batch, cancel_each, cancel_if, should_cancel, cancel_entry, stops_workers,
}
use mirrortools.Queue.Steps.{
  Event, closes_stop, stops_all, dispatches, logs, ends, leaves, pauses, limits, cancels,
  cancels_batch, calls, step, run, worker_at, log_line, end_worker, leave_worker, is_executing,
  is_leaving, record_at, record_end, records,
}

length-insert : (id : ℕ) (job : Job) (m : List (ℕ × Job)) → length (insert id job m) ≤ length m + 1
unfolding insert
length-insert id job [] = omega arith
length-insert id job ((x, old) ∷ rest) = ground (arith, length-insert id job rest)

length-remove : (id : ℕ) (m : List (ℕ × Job)) → length (remove id m) ≤ length m
unfolding remove
length-remove id [] = omega arith
length-remove id ((x, old) ∷ rest) = ground (arith, length-remove id rest)

-- Whether the dispatcher is past its test of the limits: it may register one job more.
abbrev pub pending : Phase → ℕ
pending idle = 0
pending looking = 0
pending claiming = 1
pending (claimed job) = 1

-- What an event of a worker or a client leaves alone.
abbrev pub Quiet : Queue → Queue → Type 0
Quiet q q' =
    (length q'.active_jobs ≤ length q.active_jobs)
    × (q'.phase ≡ q.phase)
    × (q'.next_token ≡ q.next_token)
    × (q'.concurrency ≡ q.concurrency)
    × (q'.paused ≡ q.paused)

pub log_line-Quiet :
    (w : Option Worker) (stream line : Text) (now : Time) (q : Queue)
    → Quiet q (log_line w stream line now q)
unfolding log_line
log_line-Quiet none stream line now q = (omega arith, refl, refl, refl, refl)
log_line-Quiet (some w) stream line now q = elim (Bool-cases (is_executing w.stage)) [
  | inl e ↦ rw e (omega arith, refl, refl, refl, refl)
  | inr e ↦ rw e (omega arith, refl, refl, refl, refl)
]

pub end_worker-Quiet :
    (w : Option Worker) (result : RunError) (q : Queue) → Quiet q (end_worker w result q)
unfolding end_worker
end_worker-Quiet none result q = (omega arith, refl, refl, refl, refl)
end_worker-Quiet (some w) result q = elim (Bool-cases (is_executing w.stage)) [
  | inl e ↦ rw e (omega arith, refl, refl, refl, refl)
  | inr e ↦ rw e (omega arith, refl, refl, refl, refl)
]

record_at-Quiet : (s : Stage) (w : Worker) (now : Time) (q : Queue) → Quiet q (record_at s w now q)
unfolding record_at
record_at-Quiet executing w now q = (omega arith, refl, refl, refl, refl)
record_at-Quiet leaving w now q = (omega arith, refl, refl, refl, refl)
record_at-Quiet (ended b result) w now q = (omega arith, refl, refl, refl, refl)

pub record_end-Quiet : (w : Option Worker) (now : Time) (q : Queue) → Quiet q (record_end w now q)
unfolding record_end
record_end-Quiet none now q = (omega arith, refl, refl, refl, refl)
record_end-Quiet (some w) now q = record_at-Quiet w.stage w now q

pub leave_worker-Quiet : (w : Option Worker) (q : Queue) → Quiet q (leave_worker w q)
unfolding leave_worker leave
leave_worker-Quiet none q = (omega arith, refl, refl, refl, refl)
leave_worker-Quiet (some w) q = elim (Bool-cases (is_leaving w.stage)) [
  | inl e ↦ rw e (length-remove w.job.id q.active_jobs, refl, refl, refl, refl)
  | inr e ↦ rw e (omega arith, refl, refl, refl, refl)
]

pub cancel_running-Quiet : (id : ℕ) (q : Queue) → Quiet q (cancel_running id q)
unfolding cancel_running
cancel_running-Quiet id q = of_entry (lookup id q.running_cancels)
  where
    of_entry : (o : Option ℕ) → Quiet q (cancel_entry o q)
    of_entry none = (omega arith, refl, refl, refl, refl)
    of_entry (some tok) = (omega arith, refl, refl, refl, refl)

Quiet-trans : (a b c : Queue) → Quiet a b → Quiet b c → Quiet a c
Quiet-trans a b c h k = (omega (arith, h.0, k.0), k.1 ∙ h.1, k.2 ∙ h.2, k.3 ∙ h.3, k.4 ∙ h.4)

cancel_if-Quiet : (hit : Bool) (id tok : ℕ) (q : Queue) → Quiet q (cancel_if hit id tok q)
unfolding cancel_if
cancel_if-Quiet false id tok q = (omega arith, refl, refl, refl, refl)
cancel_if-Quiet true id tok q = (omega arith, refl, refl, refl, refl)

module _ (p : Platform) where
  cancel_each-Quiet :
      (req : BatchRequest) (entries : List (ℕ × ℕ)) (q : Queue)
      → Quiet q (cancel_each p req entries q)
  unfolding cancel_each
  cancel_each-Quiet req [] q = (omega arith, refl, refl, refl, refl)
  cancel_each-Quiet req ((id, tok) ∷ rest) q =
      let s = should_cancel p req id q.conn in
      let read = record q { conn = s.1 } in
      let mid = cancel_if s.0 id tok read in
      Quiet-trans q read (cancel_each p req rest mid) (omega arith, refl, refl, refl, refl)
        (Quiet-trans read mid (cancel_each p req rest mid) (cancel_if-Quiet s.0 id tok read)
          (cancel_each-Quiet req rest mid))

  pub cancel_batch-Quiet : (req : BatchRequest) (q : Queue) → Quiet q (cancel_batch p req q)
  unfolding cancel_batch
  cancel_batch-Quiet req q = elim (Bool-cases (stops_workers p req.action)) [
    | inl e ↦ rw e (cancel_each-Quiet req q.running_cancels q)
    | inr e ↦ rw e (omega arith, refl, refl, refl, refl)
  ]

-- At most m jobs are registered or about to be, and the limit is at most m.
pub record IsBounded (m : ℕ) (q : Queue) : Type 0 where
  pub limited : q.concurrency ≤ m
  pub room : length q.active_jobs + pending q.phase ≤ m

-- A run sets no limit above m.
abbrev pub Limits : ℕ → Event → Type 0
Limits m (limits n) = n ≤ m
Limits m _ = Unit

Quiet-IsBounded : (m : ℕ) (q q' : Queue) → Quiet q q' → IsBounded m q → IsBounded m q'
Quiet-IsBounded m q q' h b = record {
  limited = rw h.3 b.limited;
  room = rw h.1 (omega (arith, h.0, b.room));
}

-- What holds of both branches, each under its test, holds of the choice.
pub if_lem :
    (P : Queue → Type 0) (test : Bool) (x y : Queue)
    → (test ≡ true → P x)
    → (test ≡ false → P y)
    → P (if test then x else y)
if_lem P true x y h k = h refl
if_lem P false x y h k = k refl

look-IsBounded : (m : ℕ) (q : Queue) → q.phase ≡ looking → IsBounded m q → IsBounded m (look q)
look-IsBounded m q e b =
    let here = rw e at b.room in
    let limit = b.limited in
    if_lem (IsBounded m) q.stopping _ _ (λ s. record { limited = limit; room = here })
      (λ s.
        if_lem (IsBounded m) (q.paused || leb q.concurrency (length q.active_jobs)) _ _ (λ u. b)
          (λ u. record { limited = limit; room = ground (arith, u, limit) }))

register-IsBounded :
    (m : ℕ) (job : Job) (q : Queue)
    → q.phase ≡ claimed job
    → IsBounded m q
    → IsBounded m (register job q)
unfolding register
register-IsBounded m job q e b =
    let here = rw e at b.room in
    record {
      limited = b.limited;
      room = omega (arith, here, length-insert job.id job q.active_jobs);
    }

module _ (p : Platform) where
  try_claim-IsBounded :
      (m : ℕ) (now : Time) (q : Queue)
      → q.phase ≡ claiming
      → IsBounded m q
      → IsBounded m (try_claim p now q)
  unfolding try_claim
  try_claim-IsBounded m now q e b =
      of_result (claim_next_job p now q.conn).0 (claim_next_job p now q.conn).1
    where
      of_result : (r : Result Job) (c : Conn) → IsBounded m (after_claim r (record q { conn = c }))
      of_result (ok job) c =
          let here = rw e at b.room in record { limited = b.limited; room = here }
      of_result (err x) c =
          let here = rw e at b.room in record { limited = b.limited; room = omega (arith, here) }

  dispatch_in-IsBounded :
      (m : ℕ) (f : Phase) (now : Time) (q : Queue)
      → q.phase ≡ f
      → IsBounded m q
      → IsBounded m (dispatch_in p f now q)
  unfolding dispatch_in
  dispatch_in-IsBounded m idle now q e b = b
  dispatch_in-IsBounded m looking now q e b = look-IsBounded m q e b
  dispatch_in-IsBounded m claiming now q e b = try_claim-IsBounded m now q e b
  dispatch_in-IsBounded m (claimed job) now q e b = register-IsBounded m job q e b

  step-IsBounded :
      (m : ℕ) (q : Queue) (e : Event) → Limits m e → IsBounded m q → IsBounded m (step p q e)
  unfolding step stop_workers dispatch
  step-IsBounded m q closes_stop l b = record { limited = b.limited; room = b.room }
  step-IsBounded m q stops_all l b = record { limited = b.limited; room = b.room }
  step-IsBounded m q (dispatches now) l b = dispatch_in-IsBounded m q.phase now q refl b
  step-IsBounded m q (logs tok stream line now) l b =
      Quiet-IsBounded m q _ (log_line-Quiet (worker_at tok q.workers) stream line now q) b
  step-IsBounded m q (ends tok result) l b =
      Quiet-IsBounded m q _ (end_worker-Quiet (worker_at tok q.workers) result q) b
  step-IsBounded m q (records tok now) l b =
      Quiet-IsBounded m q _ (record_end-Quiet (worker_at tok q.workers) now q) b
  step-IsBounded m q (leaves tok) l b =
      Quiet-IsBounded m q _ (leave_worker-Quiet (worker_at tok q.workers) q) b
  step-IsBounded m q (pauses u) l b = record { limited = b.limited; room = b.room }
  step-IsBounded m q (limits n) l b = record { limited = l; room = b.room }
  step-IsBounded m q (cancels id) l b = Quiet-IsBounded m q _ (cancel_running-Quiet id q) b
  step-IsBounded m q (cancels_batch req) l b = Quiet-IsBounded m q _ (cancel_batch-Quiet p req q) b
  step-IsBounded m q (calls now a) l b = record { limited = b.limited; room = b.room }

  run-IsBounded :
      (m : ℕ) (es : List Event) (q : Queue)
      → All (Limits m) es
      → IsBounded m q
      → IsBounded m (run p q es)
  unfolding run
  run-IsBounded m [] q l b = b
  run-IsBounded m (e ∷ es) q l b = run-IsBounded m es (step p q e) l.1 (step-IsBounded m q e l.0 b)

load_settings-IsBounded :
    (m : ℕ) (r : Result (Bool × ℕ)) (q : Queue)
    → q.active_jobs ≡ []
    → (load_settings r q).concurrency ≤ m
    → IsBounded m (record (load_settings r q) { phase = looking })
load_settings-IsBounded m (err e) q empty h = record { limited = h; room = rw empty (omega arith) }
load_settings-IsBounded m (ok s) q empty h = record { limited = h; room = rw empty (omega arith) }

-- After a start, in any interleaving of the dispatcher, the workers and the clients, in which no
-- limit above m is set and the limit after the start is m at most, at most m jobs are registered
-- as active.
pub run-start-bound :
    (p : Platform) (conn : Conn) (limit retries : ℤ) (now : Time) (m : ℕ) (es : List Event)
    → (start now (new_queue conn limit retries)).concurrency ≤ m
    → All (Limits m) es
    → length (run p (start now (new_queue conn limit retries)) es).active_jobs ≤ m
unfolding start
run-start-bound p conn limit retries now m es h l =
    let recovered = (on_store (recover_orphaned_jobs now) (new_queue conn limit retries)).1 in
    let read = on_store get_queue_config recovered in
    let b = run-IsBounded p m es _ l (load_settings-IsBounded m read.0 read.1 refl h) in
    omega (arith, b.room)

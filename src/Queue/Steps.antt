-- ===== src/Queue/Steps.antt =====
-- The queue's goroutines interleaved: each event is a region under the queue's lock or a call of
-- the store, of the dispatcher, of a worker or of a client, and a run is any sequence of them.
use mirrortools.Prelude.{
  ℕ, Bool, true, Option, none, some, List, [], ◌∷◌, if◌then◌else◌, ◌==◌, nat_has_eq, Text, false,
}
use mirrortools.Job.{Time, Platform, BatchRequest}
use mirrortools.Store.Invariant.Commands.{Command, command}
use mirrortools.Store.Logs.{append_log}
use mirrortools.Queue.{
  Queue, Worker, RunError, stop, stop_workers, dispatch, end_run, leave, Stage, executing, leaving,
  ended,
}
use mirrortools.Queue.Methods.{set_paused, limit_to, cancel_running, cancel_batch}

pub data Event : Type 0 where
  closes_stop stops_all : Event
  dispatches : Time → Event
  -- A worker, by its token: a line of output, the end of its run with the test of its context, its
  -- last call of the store, its deferred region.
  logs : ℕ → Text → Text → Time → Event
  ends : ℕ → RunError → Event
  records : ℕ → Time → Event
  leaves : ℕ → Event
  -- The regions of the clients' calls, and a client's call of the store.
  pauses : Bool → Event
  limits cancels : ℕ → Event
  cancels_batch : BatchRequest → Event
  calls : Time → Command → Event

unfoldable pub worker_at : ℕ → List Worker → Option Worker
worker_at tok [] = none
worker_at tok (w ∷ ws) = let rest = worker_at tok ws in if w.token == tok then some w else rest

unfoldable pub set_stage : ℕ → Stage → List Worker → List Worker
set_stage tok stage [] = []
set_stage tok stage (w ∷ ws) =
    (if w.token == tok then record w { stage = stage } else w) ∷ set_stage tok stage ws

abbrev pub is_executing : Stage → Bool
is_executing executing = true
is_executing _ = false

abbrev pub is_leaving : Stage → Bool
is_leaving leaving = true
is_leaving _ = false

unfoldable pub drop_worker : ℕ → List Worker → List Worker
drop_worker tok [] = []
drop_worker tok (w ∷ ws) =
    let rest = drop_worker tok ws in if w.token == tok then rest else w ∷ rest

-- onLog, the broadcast to the hub left out.
unfoldable pub log_line : Option Worker → Text → Text → Time → Queue → Queue
unfolding append_log
log_line none stream line now q = q
log_line (some w) stream line now q =
    if is_executing w.stage
    then record q { conn = (append_log w.job.id stream line now q.conn).1 }
    else q

unfoldable pub end_worker : Option Worker → RunError → Queue → Queue
unfolding set_stage
end_worker none result q = q
end_worker (some w) result q =
    if is_executing w.stage
    then record q { workers = set_stage w.token (ended w.is_cancelled result) q.workers }
    else q

unfoldable pub record_at : Stage → Worker → Time → Queue → Queue
unfolding end_run set_stage
record_at executing w now q = q
record_at leaving w now q = q
record_at (ended cancelled result) w now q = record q {
  conn = end_run (record w { is_cancelled = cancelled }) result now q.conn;
  workers = set_stage w.token leaving q.workers;
}

unfoldable pub record_end : Option Worker → Time → Queue → Queue
unfolding record_at
record_end none now q = q
record_end (some w) now q = record_at w.stage w now q

unfoldable pub leave_worker : Option Worker → Queue → Queue
unfolding leave drop_worker
leave_worker none q = q
leave_worker (some w) q =
    if is_leaving w.stage
    then (let left = leave w q in record left { workers = drop_worker w.token q.workers })
    else q

module _ (p : Platform) where
  -- An event that is not possible changes nothing.
  unfoldable pub step : Queue → Event → Queue
  unfolding stop_workers dispatch worker_at log_line end_worker record_end leave_worker
      cancel_running cancel_batch
  step q closes_stop = stop q
  step q stops_all = stop_workers q
  step q (dispatches now) = dispatch p now q
  step q (logs tok stream line now) = log_line (worker_at tok q.workers) stream line now q
  step q (ends tok result) = end_worker (worker_at tok q.workers) result q
  step q (records tok now) = record_end (worker_at tok q.workers) now q
  step q (leaves tok) = leave_worker (worker_at tok q.workers) q
  step q (pauses b) = set_paused b q
  step q (limits n) = limit_to n q
  step q (cancels id) = cancel_running id q
  step q (cancels_batch req) = cancel_batch p req q
  step q (calls now a) = record q { conn = (command p now a q.conn).1 }

  unfoldable pub run : Queue → List Event → Queue
  unfolding step
  run q [] = q
  run q (e ∷ es) = run (step q e) es

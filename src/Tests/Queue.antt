-- ===== src/Tests/Queue.antt =====
-- The theorems on the queue, on four jobs.
use mathlib.Core.Option
use mirrortools.Prelude.{
  ◌≤◌, ◌+◌, ◌≡◌, refl, true, false, some, List, [], ◌∷◌, codes, pos, arith, length,
}
use mirrortools.Job.{running}
use mirrortools.Store.Sql.{find_row}
use mirrortools.Store.Jobs.{scan_row}
use mirrortools.Store.Lifecycle.{sound}
use mirrortools.Store.Settings.RoundTrip.{stored_paused}
use mirrortools.Queue.{Queue, Worker, new_queue, start, end_run, claiming, executing}
use mirrortools.Queue.Methods.{set_paused, set_concurrency}
use mirrortools.Queue.Steps.{Event, dispatches, limits, ends, leaves, cancels, logs, run, records}
use mirrortools.Queue.Bound.{run-start-bound}
use mirrortools.Queue.Paused.{run-set_paused-bound}
use mirrortools.Queue.Outcome.{ended_row, end_run-next}
use mirrortools.Queue.Restart.{start-set_concurrency}
use mirrortools.Tests.Samples.{plain, row_of, four, four-Ascends}

-- Two jobs are claimed and registered, one of them fails, and the limit is lowered.
abbrev busy : List Event
busy =
    dispatches 1
    ∷ dispatches 2
    ∷ dispatches 3
    ∷ dispatches 4
    ∷ dispatches 5
    ∷ dispatches 6
    ∷ logs 0 [] (codes "x") 7
    ∷ ends 0 (some (codes "timeout"))
    ∷ records 0 8
    ∷ limits 1
    ∷ leaves 0
    ∷ cancels 1
    ∷ []

run-start-bound_example :
    length (run plain (start 0 (new_queue (sound four) (pos 1) (pos 3))) busy).active_jobs ≤ 2
unfolding start
run-start-bound_example =
    run-start-bound plain (sound four) (pos 1) (pos 3) 0 2 busy (ground arith)
      (tt, (tt, (tt, (tt, (tt, (tt, (tt, (tt, (tt, (ground arith, (tt, (tt, tt))))))))))))

abbrev opened : Queue
opened = record (new_queue (sound four) (pos 2) (pos 3)) { phase = claiming }

run-set_paused-bound_example : (run plain (set_paused true opened) busy).next_token ≤ 0 + 1
run-set_paused-bound_example =
    run-set_paused-bound plain opened busy
      (tt, (tt, (tt, (tt, (tt, (tt, (tt, (tt, (tt, (tt, (tt, (tt, tt))))))))))))

abbrev worker : Worker
worker = record {
  token = 0;
  job = scan_row plain (row_of 2 running (pos 0));
  is_cancelled = false;
  stage = executing;
}

end_run-next_example :
    find_row 2 (end_run worker (some (codes "wrong Password")) 9 (sound four)).tables.jobs
    ≡ Option.map (ended_row false (some (codes "wrong Password")) 9) (find_row 2 four.jobs)
unfolding scan_row
end_run-next_example = end_run-next worker 9 1 four four-Ascends (some (codes "wrong Password")) 2

start-set_concurrency_example :
    let again = start 9 (
      new_queue
        (set_concurrency (pos 4) (record opened { conn = sound four })).1.conn
        (pos 2)
        (pos 3)) in
    (again.concurrency ≡ 4) × (again.paused ≡ stored_paused four)
start-set_concurrency_example =
    start-set_concurrency opened four tt (pos 2) (pos 3) 9 (pos 4) refl (ground arith)

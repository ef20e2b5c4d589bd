-- ===== src/Queue/Paused.antt =====
-- What a pause holds back: the dispatcher may start the job that it is about to claim, and no more.
use mirrortools.Prelude.{
  ℕ, ◌+◌, ◌≤◌, ◌≡◌, refl, true, ◌||◌, List, [], ◌∷◌, arith, leb, length, All, ◌∙◌,
}
use mirrortools.Job.{Job, Time, Platform}
use mirrortools.Store.Tables.{Result, ok, err, Conn}
use mirrortools.Store.Claim.{claim_next_job}
use mirrortools.Queue.{
  Queue, Phase, idle, looking, claiming, claimed, dispatch, dispatch_in, try_claim, after_claim,
  register, look, stop_workers,
}
use mirrortools.Queue.Methods.{set_paused}
use mirrortools.Queue.Steps.{
  Event, closes_stop, stops_all, dispatches, logs, ends, leaves, pauses, limits, cancels,
  cancels_batch, calls, step, run, worker_at, records,
}
use mirrortools.Queue.Bound.{
  pending, Quiet, log_line-Quiet, end_worker-Quiet, leave_worker-Quiet, cancel_running-Quiet,
  cancel_batch-Quiet, if_lem, record_end-Quiet,
}

-- A paused queue that has started k workers at most, the pending one included.
record IsHeld (k : ℕ) (q : Queue) : Type 0 where
  held : q.paused ≡ true
  few : q.next_token + pending q.phase ≤ k

-- A run does not resume the queue.
abbrev pub StaysPaused : Event → Type 0
StaysPaused (pauses b) = b ≡ true
StaysPaused _ = Unit

Quiet-IsHeld : (k : ℕ) (q q' : Queue) → Quiet q q' → IsHeld k q → IsHeld k q'
Quiet-IsHeld k q q' h b = record { held = h.4 ∙ b.held; few = rw (h.1, h.2) b.few }

look-IsHeld : (k : ℕ) (q : Queue) → q.phase ≡ looking → IsHeld k q → IsHeld k (look q)
look-IsHeld k q e b =
    let here = rw e at b.few in
    if_lem (IsHeld k) q.stopping _ _ (λ s. record { held = b.held; few = here })
      (λ s.
        if_lem (IsHeld k) (q.paused || leb q.concurrency (length q.active_jobs)) _ _ (λ u. b)
          (λ u. absurd (ground (arith, u, b.held))))

module _ (p : Platform) where
  try_claim-IsHeld :
      (k : ℕ) (now : Time) (q : Queue)
      → q.phase ≡ claiming
      → IsHeld k q
      → IsHeld k (try_claim p now q)
  unfolding try_claim
  try_claim-IsHeld k now q e b =
      of_result (claim_next_job p now q.conn).0 (claim_next_job p now q.conn).1
    where
      of_result : (r : Result Job) (c : Conn) → IsHeld k (after_claim r (record q { conn = c }))
      of_result (ok job) c = let here = rw e at b.few in record { held = b.held; few = here }
      of_result (err x) c =
          let here = rw e at b.few in record { held = b.held; few = omega (arith, here) }

  dispatch_in-IsHeld :
      (k : ℕ) (f : Phase) (now : Time) (q : Queue)
      → q.phase ≡ f
      → IsHeld k q
      → IsHeld k (dispatch_in p f now q)
  unfolding dispatch_in register
  dispatch_in-IsHeld k idle now q e b = b
  dispatch_in-IsHeld k looking now q e b = look-IsHeld k q e b
  dispatch_in-IsHeld k claiming now q e b = try_claim-IsHeld k now q e b
  dispatch_in-IsHeld k (claimed job) now q e b =
      let here = rw e at b.few in record { held = b.held; few = omega (arith, here) }

  step-IsHeld : (k : ℕ) (q : Queue) (e : Event) → StaysPaused e → IsHeld k q → IsHeld k (step p q e)
  unfolding step stop_workers dispatch
  step-IsHeld k q closes_stop l b = record { held = b.held; few = b.few }
  step-IsHeld k q stops_all l b = record { held = b.held; few = b.few }
  step-IsHeld k q (dispatches now) l b = dispatch_in-IsHeld k q.phase now q refl b
  step-IsHeld k q (logs tok stream line now) l b =
      Quiet-IsHeld k q _ (log_line-Quiet (worker_at tok q.workers) stream line now q) b
  step-IsHeld k q (ends tok result) l b =
      Quiet-IsHeld k q _ (end_worker-Quiet (worker_at tok q.workers) result q) b
  step-IsHeld k q (records tok now) l b =
      Quiet-IsHeld k q _ (record_end-Quiet (worker_at tok q.workers) now q) b
  step-IsHeld k q (leaves tok) l b =
      Quiet-IsHeld k q _ (leave_worker-Quiet (worker_at tok q.workers) q) b
  step-IsHeld k q (pauses u) l b = record { held = l; few = b.few }
  step-IsHeld k q (limits n) l b = record { held = b.held; few = b.few }
  step-IsHeld k q (cancels id) l b = Quiet-IsHeld k q _ (cancel_running-Quiet id q) b
  step-IsHeld k q (cancels_batch req) l b = Quiet-IsHeld k q _ (cancel_batch-Quiet p req q) b
  step-IsHeld k q (calls now a) l b = record { held = b.held; few = b.few }

  run-IsHeld :
      (k : ℕ) (es : List Event) (q : Queue)
      → All StaysPaused es
      → IsHeld k q
      → IsHeld k (run p q es)
  unfolding run
  run-IsHeld k [] q l b = b
  run-IsHeld k (e ∷ es) q l b = run-IsHeld k es (step p q e) l.1 (step-IsHeld k q e l.0 b)

-- Once the queue is paused, in any interleaving in which it is not resumed, the dispatcher starts
-- no worker, or one if it was already past its test of the limits or had claimed a job.
pub run-set_paused-bound :
    (p : Platform) (q : Queue) (es : List Event)
    → All StaysPaused es
    → (run p (set_paused true q) es).next_token ≤ q.next_token + pending q.phase
run-set_paused-bound p q es l =
    let h =
      run-IsHeld p (q.next_token + pending q.phase) es (set_paused true q) l
        (record { held = refl; few = omega arith }) in
    omega (arith, h.few)

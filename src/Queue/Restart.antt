-- ===== src/Queue/Restart.antt =====
-- What a daemon that is started again knows of the queue's settings.
use mirrortools.Prelude.{ℕ, ◌≡◌, ◌≤◌, refl, Bool, false, arith, ℤ, positive_or, max_int}
use mirrortools.Job.{Time}
use mirrortools.Store.Tables.{Result, ok, Tables, statement}
use mirrortools.Store.Sql.{update}
use mirrortools.Store.Jobs.{recover_orphaned_jobs}
use mirrortools.Store.Settings.{
  set_queue_paused, set_queue_concurrency, get_queue_config, put_setting,
}
use mirrortools.Store.Lifecycle.{sound}
use mirrortools.Store.Settings.RoundTrip.{
  UniqueKeys, stored_paused, stored_concurrency, get-set_queue_concurrency, get-set_queue_paused,
}
use mirrortools.Queue.{Queue, new_queue, start, load_settings, on_store}
use mirrortools.Queue.Methods.{pause, set_concurrency, below_one}

load_settings-ok :
    (r : Result (Bool × ℕ)) (q : Queue) (b : Bool) (n : ℕ)
    → r ≡ ok (b, n)
    → 1 ≤ n
    → ((load_settings r q).concurrency ≡ n) × ((load_settings r q).paused ≡ b)
load_settings-ok r q b n e h = rw e (ground (arith, h), refl)

-- A restart reads the settings that it finds; what it does to the jobs does not matter to them.
start-config :
    (t : Tables) (b : Bool) (n : ℕ) (limit retries : ℤ) (now : Time)
    → (get_queue_config (sound t)).0 ≡ ok (b, n)
    → 1 ≤ n
    → let again = start now (new_queue (sound t) limit retries) in
      (again.concurrency ≡ n) × (again.paused ≡ b)
unfolding start recover_orphaned_jobs update statement get_queue_config
start-config t b n limit retries now e h =
    let recovered = (on_store (recover_orphaned_jobs now) (new_queue (sound t) limit retries)).1 in
    let read = on_store get_queue_config recovered in load_settings-ok read.0 read.1 b n e h

one_at_least : (n : ℤ) → 1 ≤ positive_or 1 n
one_at_least n = ground arith

module _ (q : Queue) (t : Tables) (u : UniqueKeys t.settings) (limit retries : ℤ) (now : Time) where
  -- Over settings with unique keys, while the driver does not fail: a concurrency of one or more
  -- that fits an int, once set, is the limit of a daemon that is started again, whatever its
  -- flags, and whether it is paused is as stored.
  pub start-set_concurrency :
      (n : ℤ)
      → below_one n ≡ false
      → positive_or 1 n ≤ max_int
      → let again =
          start now
            (new_queue (set_concurrency n (record q { conn = sound t })).1.conn limit retries) in
        (again.concurrency ≡ positive_or 1 n) × (again.paused ≡ stored_paused t)
  unfolding set_concurrency set_queue_concurrency put_setting statement
  start-set_concurrency n above small = rw above (
      start-config (set_queue_concurrency n (sound t)).1.tables (stored_paused t) (positive_or 1 n)
        limit retries now (get-set_queue_concurrency t u n small) (one_at_least n))

  -- Over settings with unique keys, while the driver does not fail: a pause or its end, once set,
  -- holds in a daemon that is started again, whatever its flags, and the limit is the one that is
  -- stored.
  pub start-pause :
      (b : Bool)
      → let again =
          start now (new_queue (pause b (record q { conn = sound t })).1.conn limit retries) in
        (again.concurrency ≡ stored_concurrency t) × (again.paused ≡ b)
  unfolding pause set_queue_paused put_setting statement
  start-pause b =
      start-config (set_queue_paused b (sound t)).1.tables b (stored_concurrency t) limit retries
        now (get-set_queue_paused t u b) (one_at_least _)

-- ===== src/Store/Settings.antt =====
-- The table queue_state: GetQueueConfig, SetQueuePaused and SetQueueConcurrency of store.go.
pub mod RoundTrip
use mirrortools.Prelude.{
  ℕ, Bool, false, ◌||◌, none, some, List, [], ◌∷◌, if◌then◌else◌, ◌==◌, Text, codes, text_has_eq,
  insert, ℤ, pos, positive_or, format_nat, scan_int,
}
use mirrortools.Store.Tables.{Result, ok, Tables, Exec, ◌>>=◌, pure, statement}
use mirrortools.Store.Sql.{query}

abbrev pub paused_key : Text
paused_key = codes "paused"

abbrev pub concurrency_key : Text
concurrency_key = codes "concurrency"

-- INSERT … ON CONFLICT(key) DO UPDATE
unfoldable pub put_setting : Text → Text → Tables → Result (Unit {0}) × Tables
unfolding insert
put_setting k v t = (ok tt, record t { settings = insert k v t.settings })

-- SetQueuePaused
unfoldable pub set_queue_paused : Bool → Exec (Unit {0})
unfolding put_setting statement
set_queue_paused paused =
    statement (put_setting paused_key (if paused then codes "1" else codes "0"))

-- SetQueueConcurrency
unfoldable pub set_queue_concurrency : ℤ → Exec (Unit {0})
unfolding put_setting statement
set_queue_concurrency n = statement (put_setting concurrency_key (format_nat (positive_or 1 n)))

pub record QueueSettings : Type 0 where
  pub paused : Bool
  pub concurrency : ℤ

-- The body of the loop over the rows.
unfoldable pub read_setting : Text → Text → QueueSettings → QueueSettings
unfolding scan_int
read_setting k v s =
    if k == paused_key
    then record s { paused = v == codes "1" || v == codes "true" }
    else if k == concurrency_key
    then elim (scan_int v) [ none ↦ s | some n ↦ record s { concurrency = n } ]
    else s

unfoldable pub read_settings : QueueSettings → List (Text × Text) → QueueSettings
unfolding read_setting
read_settings s [] = s
read_settings s ((k, v) ∷ rest) = read_settings (read_setting k v s) rest

-- GetQueueConfig: paused, and a concurrency of at least one.
unfoldable pub get_queue_config : Exec (Bool × ℕ)
unfolding read_settings query statement
get_queue_config = do
  rows ← statement (query (λ t. t.settings))
  let s = read_settings (record { paused = false; concurrency = pos 2 }) rows
  pure (s.paused, positive_or 1 s.concurrency)

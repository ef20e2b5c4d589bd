-- ===== src/Store/Claim.antt =====
-- ClaimNextJob of store.go: which queued job runs next.
pub mod Order
use mirrortools.Prelude.{
  ℕ, Bool, Option, none, some, List, [], ◌∷◌, map, if◌then◌else◌, nat_has_eq, ltb, Text,
  text_has_eq, text_lt, ltb_ℤ, contains, select, then_by, descending, by_key, first_by,
}
use mirrortools.Job.{queued, running, state_has_eq, Job, Time, Platform}
use mirrortools.Store.Tables.{queue_empty, Row, Exec, ◌>>=◌, pure, raise, statement, transaction}
use mirrortools.Store.Sql.{update, query, at_id}
use mirrortools.Store.Jobs.{scan_row, in_state, always}

-- SELECT DISTINCT site FROM jobs WHERE state = 'running'; only membership is asked for.
abbrev pub busy_sites : List Row → List Text
busy_sites rows = map (λ r. r.site) (select (in_state running) rows)

-- CASE WHEN site IN (…) THEN 1 ELSE 0 END
abbrev pub site_load : List Row → Row → ℕ
site_load rows r = if contains (busy_sites rows) r.site then 1 else 0

-- The ORDER BY clause: r is claimed before q. Of rows that it leaves level the model takes the one
-- with the least id, where SQL leaves the choice open.
unfoldable pub claimed_before : List Row → Row → Row → Bool
unfolding contains select
claimed_before rows = then_by (descending (by_key (λ r. r.priority) ltb_ℤ)) (
    then_by (by_key (site_load rows) ltb) (
      then_by (by_key (λ r. r.site) text_lt)
        (then_by (by_key (λ r. r.path) text_lt) (by_key (λ r. r.created_at) ltb))))

abbrev pub first_row : (Row → Row → Bool) → List Row → Option Row
first_row before [] = none
first_row before (r ∷ rs) = some (first_by before r rs)

-- SELECT … WHERE state = 'queued' ORDER BY … LIMIT 1
unfoldable pub next_row : List Row → Option Row
unfolding claimed_before select first_by
next_row rows = first_row (claimed_before rows) (select (in_state queued) rows)

abbrev pub started_row : Time → Row → Row
started_row now r = record r { state = running; started_at = some now }

module _ (p : Platform) where
  -- What follows once the row is found, or not.
  unfoldable pub claim : Time → Option Row → Exec Job
  claim now none = raise queue_empty
  claim now (some r) = do
    _ ← statement (update (at_id r.id always) (started_row now))
    pure (let job = scan_row p r in record job { state = running; started_at = some now })

  -- ClaimNextJob
  unfoldable pub claim_next_job : Time → Exec Job
  claim_next_job now =
      transaction (do found ← statement (query (λ t. next_row t.jobs)); claim now found)

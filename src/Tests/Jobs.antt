-- ===== src/Tests/Jobs.antt =====
-- The theorems on single jobs and on batches, on four jobs.
use mathlib.Core.Option
use mirrortools.Prelude.{
  ℕ, none, some, [], ◌∷◌, ◌≡◌, nat_has_eq, codes, refl, pos, ◌≢◌, All, contains, ◌+◌, text_has_eq,
  ◌⊎◌, length, select,
}
use mirrortools.Job.{Job, queued, running, batch_cancel}
use mirrortools.Store.Tables.{Row, Conn, ok, err, queue_empty, transaction, statement}
use mirrortools.Store.Sql.{find_row, ids, query, update}
use mirrortools.Store.Jobs.{scan_row}
use mirrortools.Store.Claim.{started_row, claim_next_job, claim, next_row}
use mirrortools.Store.Claim.Order.{Claims, claim_next_job-Claims, claim_next_job-total}
use mirrortools.Store.Lifecycle.{cancels, sound, next, run_op, row_after, run_op-reply, run_op-next}
use mirrortools.Store.Retry.{
  fail_times, state_after, recovered_row, recovered, fail_times-state, recover_orphaned_jobs-next,
}
use mirrortools.Store.Batch.{batch_statement, batch_action, batch_result}
use mirrortools.Store.Batch.Effect.{
  batch_next, batch_statement-next, run_each, batch_statement-eq-each,
}
use mirrortools.Store.Batch.Targets.{selected, batch_action_by_prefix}
use mirrortools.Store.Jobs.{recover_orphaned_jobs, orphan}
use mirrortools.Prelude.{count}
use mirrortools.Tests.Samples.{plain, row_of, four, four-Ascends, under_a}

claim_next_job-Claims_example :
    Claims plain 7 four
      (scan_row plain (started_row 7 (row_of 3 queued (pos 5))))
      (claim_next_job plain 7 (sound four)).1.tables
unfolding claim_next_job transaction statement query claim next_row update scan_row
claim_next_job-Claims_example =
    claim_next_job-Claims plain 7 1 (sound four)
      (scan_row plain (started_row 7 (row_of 3 queued (pos 5)))) four-Ascends refl

claim_next_job-total_example :
    ((job : Job) × ((claim_next_job plain 7 (sound four)).0 ≡ ok job))
    ⊎ (All (λ q. q.state ≢ queued) four.jobs
        × ((claim_next_job plain 7 (sound four)).0 ≡ err queue_empty))
claim_next_job-total_example = claim_next_job-total plain 7 four

run_op-reply_example : (run_op (cancels 8) 2 (sound four)).0 ≡ ok tt
unfolding find_row
run_op-reply_example = run_op-reply 1 2 four four-Ascends (cancels 8)

run_op-next_example : row_after (cancels 8) 2 four 2 ≡ next (cancels 8) (find_row 2 four.jobs)
run_op-next_example = run_op-next 1 2 four four-Ascends (cancels 8) 2

-- The third call of the driver, the update, fails.
abbrev failing : Conn
failing = record { tables = four; faults = none ∷ none ∷ some (codes "disk full") ∷ [] }

fail_times-state_example :
    (s : Row) × (find_row 2 (fail_times 2 2 (codes "timeout") 8 four).jobs ≡ some s)
    × (s.retry_count ≡ 0 + 2)
    × (s.max_retries ≡ 2)
    × (s.state ≡ state_after 2 (0 + 2))
unfolding find_row
fail_times-state_example =
    fail_times-state 1 2 (codes "timeout") 8 four (row_of 2 running (pos 0)) refl

recover_orphaned_jobs-next_example :
    ((recover_orphaned_jobs 8 (sound four)).0 ≡ ok (count orphan four.jobs))
    × ((j : ℕ)
        → find_row j (recovered 8 four).jobs ≡ Option.map (recovered_row 8) (find_row j four.jobs))
recover_orphaned_jobs-next_example = recover_orphaned_jobs-next 8 four

batch_statement-next_example :
    find_row 2 (batch_statement batch_cancel (1 ∷ 2 ∷ []) [] 8 (sound four)).1.tables.jobs
    ≡ batch_next batch_cancel [] 8 (find_row 2 four.jobs)
unfolding contains
batch_statement-next_example =
    batch_statement-next (1 ∷ 2 ∷ []) [] 8 1 four four-Ascends batch_cancel 2

batch_statement-eq-each_example :
    (batch_statement batch_cancel (1 ∷ 2 ∷ 4 ∷ []) [] 8 (sound four)).1.tables
    ≡ run_each (cancels 8) (1 ∷ 2 ∷ 4 ∷ []) four
batch_statement-eq-each_example =
    batch_statement-eq-each batch_cancel (cancels 8) (1 ∷ 2 ∷ 4 ∷ []) [] 8 four refl

batch_action_by_prefix_example :
    (batch_action plain under_a 8 (sound four)).0
    ≡ ok (
        batch_result plain under_a
          (ids (select (selected plain under_a) four.jobs))
          (length (ids (select (selected plain under_a) four.jobs))))
batch_action_by_prefix_example =
    batch_action_by_prefix plain 8 1 four four-Ascends under_a refl refl (λ e. cc)

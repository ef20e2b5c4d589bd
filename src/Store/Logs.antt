-- ===== src/Store/Logs.antt =====
-- AppendLog and GetLogs of store.go.
pub mod Lines
use mirrortools.Prelude.{
  ℕ, zero, suc, List, ◌==◌, nat_has_eq, Text, ltb, select, take, drop, by_key, sort_by, ℤ,
  positive_or,
}
use mirrortools.Job.{Time, JobLog}
use mirrortools.Store.Tables.{Exec, statement}
use mirrortools.Store.Sql.{insert_log, query}

-- AppendLog
unfoldable pub append_log : ℕ → Text → Text → Time → Exec (Unit {0})
unfolding insert_log statement
append_log job_id stream message now = statement (
    insert_log
      (record { id = 0; job_id = job_id; timestamp = now; stream = stream; message = message }))

-- LIMIT and OFFSET, which are added only where the limit is positive, the offset only beside it.
abbrev pub page {ℓ} : {A : Type ℓ} → ℤ → ℤ → List A → List A
page limit offset xs = elim (positive_or 0 limit) [
  | zero ↦ xs
  | suc n ↦ take (suc n) (drop (positive_or 0 offset) xs)
]

-- GetLogs
unfoldable pub get_logs : ℕ → ℤ → ℤ → Exec (List JobLog)
unfolding query statement select sort_by
get_logs job_id limit offset = statement (
    query (λ t.
      page limit offset
        (sort_by (by_key (λ l. l.id) ltb) (select (λ l. l.job_id == job_id) t.logs))))

-- ===== src/Store/Logs/Lines.antt =====
-- The log of a job as AppendLog, GetLogs and DeleteJob see it.
use mathlib.Core.List.{append-nil}
use mirrortools.Prelude.{
  ℕ, suc, ◌≤◌, ◌<◌, ◌≡◌, refl, ap, ◌∙◌, Bool, true, false, not, some, List, [], ◌∷◌, ◌++◌,
  if◌then◌else◌, ◌==◌, nat_has_eq, Text, ℤ, arith, contains, select, All, All-impl, by_key, ltb,
  InOrder, sort_by_sorted, Bool-cases, inl, inr, zero,
}
use mirrortools.Job.{JobLog, Time}
use mirrortools.Store.Tables.{
  Row, Tables, ok, err, no_such_parent, statement, Conn, StoreError, cannot_delete,
}
use mirrortools.Store.Sql.{ids, insert_log, delete, query, find_row, at_id, Ascends}
use mirrortools.Store.Jobs.{deletable, delete_job, needs_row}
use mirrortools.Store.Logs.{append_log, get_logs, page}
use mirrortools.Store.Lifecycle.{sound}
use mirrortools.Store.Invariant.{IsValid, LogsAscend}

-- The lines of a job, oldest first.
abbrev pub lines : ℕ → Tables → List JobLog
lines i t = select (λ l. l.job_id == i) t.logs

LogsAscend-All : (n : ℕ) (logs : List JobLog) → LogsAscend n logs → All (λ l. n ≤ l.id) logs
LogsAscend-All n [] a = tt
LogsAscend-All n (l ∷ ls) a = (
  a.0,
  All-impl (λ x. suc l.id ≤ x.id) (λ x. n ≤ x.id) ls (λ x k. omega arith)
      (LogsAscend-All (suc l.id) ls a.1),
)

All-select' :
    (p : JobLog → Bool) (P : JobLog → Type 0) (logs : List JobLog)
    → All P logs
    → All P (select p logs)
unfolding select
All-select' p P [] h = tt
All-select' p P (l ∷ ls) h = elim (Bool-cases (p l)) [
  | inl e ↦ rw e (h.0, All-select' p P ls h.1)
  | inr e ↦ rw e (All-select' p P ls h.1)
]

abbrev by_id : JobLog → JobLog → Bool
by_id = by_key (λ l. l.id) ltb

select-InOrder :
    (p : JobLog → Bool) (n : ℕ) (logs : List JobLog)
    → LogsAscend n logs
    → InOrder by_id (select p logs)
unfolding select
select-InOrder p n [] a = tt
select-InOrder p n (l ∷ ls) a = elim (Bool-cases (p l)) [
  | inl e ↦ rw e (
    All-impl (λ x. suc l.id ≤ x.id) (λ x. by_id x l ≡ false) (select p ls) (λ x k. ground arith)
        (All-select' p (λ x. suc l.id ≤ x.id) ls (LogsAscend-All (suc l.id) ls a.1)),
    select-InOrder p (suc l.id) ls a.1,
  )
  | inr e ↦ rw e (select-InOrder p (suc l.id) ls a.1)
]

-- Over well-formed tables, while the driver does not fail, GetLogs answers the page that is asked
-- for of the job's lines, in the order in which they were written.
pub get_logs-eq-lines :
    (i : ℕ) (limit offset : ℤ) (t : Tables)
    → IsValid t
    → (get_logs i limit offset (sound t)).0 ≡ ok (page limit offset (lines i t))
unfolding get_logs query statement
get_logs-eq-lines i limit offset t v =
    ap (λ ls. ok (page limit offset ls))
      (sort_by_sorted by_id (lines i t) (select-InOrder (λ l. l.job_id == i) 1 t.logs v.log_order))

select-append :
    (p : JobLog → Bool) (xs ys : List JobLog) → select p (xs ++ ys) ≡ select p xs ++ select p ys
unfolding select
select-append p [] ys = refl
select-append p (x ∷ xs) ys = ground (arith, select-append p xs ys)

append_if :
    (b : Bool) (ls : List JobLog) (l : JobLog)
    → ls ++ (if b then l ∷ [] else []) ≡ (if b then ls ++ l ∷ [] else ls)
append_if true ls l = refl
append_if false ls l = append-nil ls

module _ (i : ℕ) (stream msg : Text) (now : Time) (t : Tables) where
  abbrev pub new_line : JobLog
  new_line = record { id = t.next_log; job_id = i; timestamp = now; stream = stream; message = msg }

  abbrev logged : Tables
  logged = (append_log i stream msg now (sound t)).1.tables

  -- While the driver does not fail, a line of a job that there is goes behind the job's other
  -- lines, and to no other job.
  pub lines-append_log :
      (j : ℕ)
      → contains (ids t.jobs) i ≡ true
      → ((append_log i stream msg now (sound t)).0 ≡ ok tt)
        × (lines j logged ≡ (if i == j then lines j t ++ new_line ∷ [] else lines j t))
  unfolding append_log insert_log statement select
  lines-append_log j e = rw e (
    refl,
    select-append (λ l. l.job_id == j) t.logs (new_line ∷ [])
        ∙ append_if (i == j) (lines j t) new_line,
  )

  -- While the driver does not fail, a line of a job that there is not is refused, and nothing
  -- changes.
  pub append_log-orphan :
      contains (ids t.jobs) i ≡ false
      → append_log i stream msg now (sound t) ≡ (err no_such_parent, sound t)
  unfolding append_log insert_log statement
  append_log-orphan e = rw e

contains-none :
    (q : Row → Bool) (n i k : ℕ) (rows : List Row)
    → Ascends n rows
    → i < n
    → contains (ids (select (at_id i q) rows)) k ≡ false
unfolding contains select
contains-none q n i k [] a h = refl
contains-none q n i k (r ∷ rs) a h = ground (arith, contains-none q (suc r.id) i k rs a.1)

-- A row of one id is selected if it passes the test, and no other.
contains-at_id :
    (q : Row → Bool) (n i k : ℕ) (rows : List Row) (r : Row)
    → Ascends n rows
    → find_row i rows ≡ some r
    → q r ≡ true
    → contains (ids (select (at_id i q) rows)) k ≡ (i == k)
unfolding contains select find_row
contains-at_id q n i k [] r a e h = cc
contains-at_id q n i k (x ∷ xs) r a e h =
    ground (arith, contains-none q (suc x.id) i k xs a.1, contains-at_id q (suc x.id) i k xs r a.1)

lines-kept :
    (i j : ℕ) (gone : List ℕ) (logs : List JobLog)
    → ((k : ℕ) → contains gone k ≡ (i == k))
    → select (λ l. l.job_id == j) (select (λ l. not (contains gone l.job_id)) logs)
      ≡ (if i == j then [] else select (λ l. l.job_id == j) logs)
unfolding select
lines-kept i j gone [] h = ground arith
lines-kept i j gone (l ∷ ls) h = ground (arith, h l.job_id, lines-kept i j gone ls h)

needs_row-conn : (x : StoreError) (k : ℕ) (c : Conn) → (needs_row x k c).1 ≡ c
needs_row-conn x zero c = refl
needs_row-conn x (suc k) c = refl

-- Over tables whose ids ascend, while the driver does not fail: deleting a job that is there, in a
-- state in which it may be deleted, deletes its log lines and no other job's.
pub lines-delete_job :
    (i j n : ℕ) (t : Tables) (r : Row)
    → Ascends n t.jobs
    → find_row i t.jobs ≡ some r
    → deletable r ≡ true
    → lines j (delete_job i (sound t)).1.tables ≡ (if i == j then [] else lines j t)
unfolding delete_job delete statement
lines-delete_job i j n t r a e h = rw (needs_row-conn (cannot_delete i)) (
    lines-kept i j (ids (select (at_id i deletable) t.jobs)) t.logs
      (λ k. contains-at_id deletable n i k t.jobs r a e h))

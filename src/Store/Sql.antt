-- ===== src/Store/Sql.antt =====
-- What the SQL statements of store.go do: UPDATE and DELETE with their WHERE and the count of rows
-- affected, INSERT with the next id, SELECT by id. Deleting a job deletes its log lines (ON DELETE
-- CASCADE), and a log line needs its job (REFERENCES).
use mirrortools.Prelude.{
  ℕ, suc, ◌≤◌, ◌<◌, Bool, not, ◌&&◌, Option, none, some, List, [], ◌∷◌, ◌++◌, map, if◌then◌else◌,
  Option-cases, inl, inr, ◌≡◌, refl, ◌==◌, nat_eq_iff, contains, nat_has_eq, arith, count, select,
  All, All-impl, All-zip,
}
use mathlib.Core.Option
use mirrortools.Job.{JobLog}
use mirrortools.Store.Tables.{Row, Tables, Result, ok, err, no_such_parent}

unfoldable pub update_where : (Row → Bool) → (Row → Row) → List Row → List Row
update_where p f [] = []
update_where p f (r ∷ rs) = (if p r then f r else r) ∷ update_where p f rs

unfoldable pub delete_where : (Row → Bool) → List Row → List Row
delete_where p [] = []
delete_where p (r ∷ rs) = let rest = delete_where p rs in if p r then rest else r ∷ rest

-- WHERE id = ?
unfoldable pub find_row : ℕ → List Row → Option Row
find_row i [] = none
find_row i (r ∷ rs) = if r.id == i then some r else find_row i rs

abbrev pub ids : List Row → List ℕ
ids = map λ r. r.id

-- UPDATE jobs SET … WHERE …; the answer is RowsAffected.
unfoldable pub update : (Row → Bool) → (Row → Row) → Tables → Result ℕ × Tables
unfolding update_where count
update p f t = (ok (count p t.jobs), record t { jobs = update_where p f t.jobs })

-- DELETE FROM jobs WHERE …
unfoldable pub delete : (Row → Bool) → Tables → Result ℕ × Tables
unfolding delete_where count select contains
delete p t = (
  ok (count p t.jobs),
  record t {
    jobs = delete_where p t.jobs;
    logs = select (λ l. not (contains (ids (select p t.jobs)) l.job_id)) t.logs;
  },
)

-- INSERT INTO jobs; the answer is LastInsertId. The row's own id is not used.
unfoldable pub insert_row : Row → Tables → Result ℕ × Tables
insert_row r t = (
  ok t.next_job,
  record t { jobs = t.jobs ++ (record r { id = t.next_job }) ∷ []; next_job = suc t.next_job },
)

-- INSERT INTO job_logs
unfoldable pub insert_log : JobLog → Tables → Result (Unit {0}) × Tables
unfolding contains
insert_log l t =
    if contains (ids t.jobs) l.job_id
    then (
      ok tt,
      record t { logs = t.logs ++ (record l { id = t.next_log }) ∷ []; next_log = suc t.next_log },
    )
    else (err no_such_parent, t)

-- SELECT, which changes nothing.
unfoldable pub query {ℓ} : {A : Type ℓ} → (Tables → A) → Tables → Result A × Tables
query f t = (ok (f t), t)

pub query-ok {ℓ} :
    {A : Type ℓ} (f : Tables → A) (t : Tables) {a : A}
    → (query f t).0 ≡ ok a
    → (f t ≡ a) × ((query f t).1 ≡ t)
unfolding query
query-ok f t h = (cc, refl)

-- Ids rise along the table.
abbrev pub Ascends : ℕ → List Row → Type 0
Ascends n [] = Unit
Ascends n (r ∷ rs) = (n ≤ r.id) × Ascends (suc r.id) rs

module _ (p : Row → Bool) (f : Row → Row) (keeps : (r : Row) → (f r).id ≡ r.id) where
  pub find_row-update_where :
      (i : ℕ) (rows : List Row)
      → find_row i (update_where p f rows)
        ≡ Option.map (λ r. if p r then f r else r) (find_row i rows)
  unfolding find_row update_where
  find_row-update_where i [] = refl
  find_row-update_where i (r ∷ rs) = ground (arith, keeps r, find_row-update_where i rs)

  pub ids-update_where : (rows : List Row) → ids (update_where p f rows) ≡ ids rows
  unfolding update_where
  ids-update_where [] = refl
  ids-update_where (r ∷ rs) = ground (arith, keeps r, ids-update_where rs)

  pub Ascends-update_where :
      (n : ℕ) (rows : List Row) → Ascends n rows → Ascends n (update_where p f rows)
  unfolding update_where
  Ascends-update_where n [] h = tt
  Ascends-update_where n (r ∷ rs) h =
      ground (arith, keeps r, Ascends-update_where (suc r.id) rs h.1)

  pub All-update_where :
      (m : ℕ) (rows : List Row)
      → All (λ r. r.id < m) rows
      → All (λ r. r.id < m) (update_where p f rows)
  unfolding update_where
  All-update_where m [] h = tt
  All-update_where m (r ∷ rs) h = ground (arith, keeps r, All-update_where m rs h.1)

pub find_row-above : (n i : ℕ) (rows : List Row) → Ascends n rows → i < n → find_row i rows ≡ none
unfolding find_row
find_row-above n i [] h k = refl
find_row-above n i (r ∷ rs) h k = ground (arith, find_row-above (suc r.id) i rs h.1)

pub Ascends-weaken : (m n : ℕ) (rows : List Row) → m ≤ n → Ascends n rows → Ascends m rows
Ascends-weaken m n [] h a = tt
Ascends-weaken m n (r ∷ rs) h a = (omega arith, a.1)

-- The row of an id, and whether it passes a test: what RowsAffected counts.
abbrev pub hits : (Row → Bool) → Option Row → ℕ
hits q none = 0
hits q (some r) = if q r then 1 else 0

abbrev pub at_id : ℕ → (Row → Bool) → Row → Bool
at_id i q r = r.id == i && q r

pub count-none :
    (q : Row → Bool) (n i : ℕ) (rows : List Row)
    → Ascends n rows
    → i < n
    → count (at_id i q) rows ≡ 0
unfolding count
count-none q n i [] h k = refl
count-none q n i (r ∷ rs) h k = ground (arith, count-none q (suc r.id) i rs h.1)

pub count-at_id :
    (q : Row → Bool) (n i : ℕ) (rows : List Row)
    → Ascends n rows
    → count (at_id i q) rows ≡ hits q (find_row i rows)
unfolding count find_row
count-at_id q n i [] h = refl
count-at_id q n i (r ∷ rs) h =
    ground (arith, count-at_id q (suc r.id) i rs h.1, count-none q (suc r.id) i rs h.1)

abbrev pub survivor : (Row → Bool) → Option Row → Option Row
survivor p none = none
survivor p (some r) = if p r then none else some r

pub find_row-delete_where :
    (p : Row → Bool) (n i : ℕ) (rows : List Row)
    → Ascends n rows
    → find_row i (delete_where p rows) ≡ survivor p (find_row i rows)
unfolding find_row delete_where
find_row-delete_where p n i [] h = refl
find_row-delete_where p n i (r ∷ rs) h = ground (
  arith,
  nat_eq_iff r.id i,
  find_row-delete_where p (suc r.id) i rs h.1,
  find_row-above (suc r.id) i rs h.1,
)

pub find_row-id : (i : ℕ) (rows : List Row) (r : Row) → find_row i rows ≡ some r → r.id ≡ i
unfolding find_row
find_row-id i [] r h = cc
find_row-id i (x ∷ rs) r h = ground (arith, find_row-id i rs r)

module _ (q : Row → Bool) where
  module _ (f : Row → Row) (keeps : (r : Row) → (f r).id ≡ r.id) where
    -- An update of one id is seen at that id only.
    pub find_row-update_at :
        (i j : ℕ) (rows : List Row)
        → find_row j (update_where (at_id i q) f rows) ≡ (
            if i == j
            then Option.map (λ r. if q r then f r else r) (find_row j rows)
            else find_row j rows)
    find_row-update_at i j rows = elim (Option-cases (find_row j rows)) [
      | inl e ↦ rw (find_row-update_where (at_id i q) f keeps j rows) (rw e (ground arith))
      | inr (r, e) ↦
          rw (find_row-update_where (at_id i q) f keeps j rows)
            (rw e (ground (arith, find_row-id j rows r e)))
    ]

  pub find_row-delete_at :
      (n i j : ℕ) (rows : List Row)
      → Ascends n rows
      → find_row j (delete_where (at_id i q) rows)
        ≡ (if i == j then survivor q (find_row j rows) else find_row j rows)
  find_row-delete_at n i j rows h = elim (Option-cases (find_row j rows)) [
    | inl e ↦ rw (find_row-delete_where (at_id i q) n j rows h) (rw e (ground arith))
    | inr (r, e) ↦
        rw (find_row-delete_where (at_id i q) n j rows h)
          (rw e (ground (arith, find_row-id j rows r e)))
  ]

pub Ascends-All : (n : ℕ) (rows : List Row) → Ascends n rows → All (λ r. n ≤ r.id) rows
Ascends-All n [] h = tt
Ascends-All n (r ∷ rs) h = (
  h.0,
  All-impl (λ x. suc r.id ≤ x.id) (λ x. n ≤ x.id) rs (λ x k. omega arith)
      (Ascends-All (suc r.id) rs h.1),
)

-- Ids are unique: every row is found under its own id.
pub find_row_self :
    (n : ℕ) (rows : List Row) → Ascends n rows → All (λ r. find_row r.id rows ≡ some r) rows
unfolding find_row
find_row_self n [] h = tt
find_row_self n (r ∷ rs) h = (
  ground arith,
  All-zip (λ x. suc r.id ≤ x.id) (λ x. find_row x.id rs ≡ some x)
      (λ x. find_row x.id (r ∷ rs) ≡ some x) rs (λ x above found. ground arith)
      (Ascends-All (suc r.id) rs h.1) (find_row_self (suc r.id) rs h.1),
)

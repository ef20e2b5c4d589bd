-- ===== src/Store/Tables.antt =====
-- The tables of the schema, the errors of the store, and the calls of the database driver.
-- A statement changes the tables as SQL says. Whether the driver fails is not the program's to
-- decide: each call takes the next entry of `faults`, and where the list is empty it succeeds.
-- A call that fails changes nothing, nor does a transaction that is not committed.
use mirrortools.Prelude.{
  ℕ, Option, none, some, List, [], ◌∷◌, ◌≡◌, refl, Text, ℤ, arith, nat_has_eq,
}
use mirrortools.Job.{State, Time, JobLog}

pub data StoreError : Type 0 where
  -- The driver's own errors, the constraint on job_logs.job_id and sql.ErrNoRows.
  driver : Text → StoreError
  no_such_parent no_rows : StoreError
  -- ErrJobNotFound and ErrQueueEmpty
  job_not_found queue_empty : StoreError
  not_quarantined cannot_pause not_paused cannot_cancel cannot_delete : ℕ → StoreError
  unknown_batch_action : Text → StoreError
  source_empty concurrency_below_one : StoreError

pub data Result {ℓ} (A : Type ℓ) : Type ℓ where
  ok : A → Result A
  err : StoreError → Result A

-- A row of the table jobs; a column that may be NULL is an option.
pub record Row : Type 0 where
  pub id : ℕ
  pub method : Text
  pub source : Text
  pub dest_dir : Text
  pub flags_json : Text
  pub state : State
  pub priority : ℤ
  pub created_at : Time
  pub started_at : Option Time
  pub finished_at : Option Time
  pub retry_count : ℕ
  pub max_retries : ℕ
  pub last_error : Option Text
  pub quarantine_reason : Option Text
  pub site : Text
  pub path : Text

-- The rows in the order of their ids; `next_job` and `next_log` are the counters of AUTOINCREMENT.
pub record Tables : Type 0 where
  pub jobs : List Row
  pub logs : List JobLog
  pub settings : List (Text × Text)
  pub next_job : ℕ
  pub next_log : ℕ

pub record Conn : Type 0 where
  pub tables : Tables
  pub faults : List (Option Text)

abbrev pub empty_tables : Tables
empty_tables = record { jobs = []; logs = []; settings = []; next_job = 1; next_log = 1 }

-- A method of the store: what comes of a call, and the connection after it.
abbrev pub Exec {ℓ} : Type ℓ → Type ℓ
Exec A = Conn → Result A × Conn

module _ {ℓ κ} {A : Type ℓ} {B : Type κ} where
  abbrev pub continue : Result A → (A → Exec B) → Exec B
  continue (ok a) f c = f a c
  continue (err e) f c = (err e, c)

  infixl 10 ◌>>=◌
  abbrev pub ◌>>=◌ : Exec A → (A → Exec B) → Exec B
  ◌>>=◌ m f c = let (r, c') = m c in continue r f c'

module _ {ℓ} {A : Type ℓ} where
  abbrev pub pure : A → Exec A
  pure a c = (ok a, c)

  abbrev pub raise : StoreError → Exec A
  raise e c = (err e, c)

  unfoldable pub perform :
      (Tables → Result A × Tables) → Tables → List (Option Text) → Result A × Conn
  perform q t fs = let (r, t') = q t in (r, record { tables = t'; faults = fs })

  unfoldable pub call : (Tables → Result A × Tables) → Tables → List (Option Text) → Result A × Conn
  unfolding perform
  call q t [] = perform q t []
  call q t (none ∷ fs) = perform q t fs
  call q t (some e ∷ fs) = (err (driver e), record { tables = t; faults = fs })

  -- db.ExecContext, db.QueryContext
  unfoldable pub statement : (Tables → Result A × Tables) → Exec A
  unfolding call
  statement q c = call q c.tables c.faults

  unfoldable pub commit : A → Tables → Tables → List (Option Text) → Result A × Conn
  commit a before t [] = (ok a, record { tables = t; faults = [] })
  commit a before t (none ∷ fs) = (ok a, record { tables = t; faults = fs })
  commit a before t (some e ∷ fs) = (err (driver e), record { tables = before; faults = fs })

  unfoldable pub finish : Tables → Result A → Conn → Result A × Conn
  unfolding commit
  finish before (ok a) c = commit a before c.tables c.faults
  finish before (err e) c = (err e, record c { tables = before })

  unfoldable pub begin : Exec A → Tables → List (Option Text) → Result A × Conn
  unfolding finish
  begin m t [] = let (r, c) = m (record { tables = t; faults = [] }) in finish t r c
  begin m t (none ∷ fs) = let (r, c) = m (record { tables = t; faults = fs }) in finish t r c
  begin m t (some e ∷ fs) = (err (driver e), record { tables = t; faults = fs })

  -- db.BeginTx, the body, tx.Commit, and the deferred tx.Rollback.
  unfoldable pub transaction : Exec A → Exec A
  unfolding begin
  transaction m c = begin m c.tables c.faults

  finish-err :
      (before : Tables) (r : Result A) (c : Conn) (e : StoreError)
      → (finish before r c).0 ≡ err e
      → (finish before r c).1.tables ≡ before
  unfolding finish
  finish-err before (ok a) c e h = ground arith
  finish-err before (err x) c e h = refl

  begin-err :
      (m : Exec A) (e : StoreError) (t : Tables) (fs : List (Option Text))
      → (begin m t fs).0 ≡ err e
      → (begin m t fs).1.tables ≡ t
  unfolding begin
  begin-err m e t [] h = let (r, c) = m (record { tables = t; faults = [] }) in finish-err t r c e h
  begin-err m e t (none ∷ fs) h =
      let (r, c) = m (record { tables = t; faults = fs }) in finish-err t r c e h
  begin-err m e t (some x ∷ fs) h = refl

  -- A transaction that returns an error has changed no table, whatever its body does.
  pub transaction-err :
      (m : Exec A) (c : Conn) (e : StoreError)
      → (transaction m c).0 ≡ err e
      → (transaction m c).1.tables ≡ c.tables
  unfolding transaction
  transaction-err m c e h = begin-err m e c.tables c.faults h

  call-ok :
      (q : Tables → Result A × Tables) (t : Tables) (fs : List (Option Text)) (a : A)
      → (call q t fs).0 ≡ ok a
      → ((q t).0 ≡ ok a) × ((call q t fs).1.tables ≡ (q t).1)
  unfolding call
  call-ok q t [] a h = (h, refl)
  call-ok q t (none ∷ fs) a h = (h, refl)
  call-ok q t (some e ∷ fs) a h = cc

  -- A statement that succeeds has run.
  pub statement-ok :
      (q : Tables → Result A × Tables) (c : Conn) (a : A)
      → (statement q c).0 ≡ ok a
      → ((q c.tables).0 ≡ ok a) × ((statement q c).1.tables ≡ (q c.tables).1)
  unfolding statement
  statement-ok q c a h = call-ok q c.tables c.faults a h

  finish-ok :
      (before : Tables) (r : Result A) (c : Conn) (a : A)
      → (finish before r c).0 ≡ ok a
      → (r ≡ ok a) × ((finish before r c).1.tables ≡ c.tables)
  unfolding finish
  finish-ok before (ok x) c a h = ground arith
  finish-ok before (err x) c a h = cc

  -- The body of a transaction, run to its end and committed.
  abbrev pub Committed : Exec A → Tables → A → Conn → Type ℓ
  Committed m t a c' =
      (fs : List (Option Text)) × ((m (record { tables = t; faults = fs })).0 ≡ ok a)
      × (c'.tables ≡ (m (record { tables = t; faults = fs })).1.tables)

  begin-ok :
      (m : Exec A) (t : Tables) (fs : List (Option Text)) (a : A)
      → (begin m t fs).0 ≡ ok a
      → Committed m t a (begin m t fs).1
  unfolding begin
  begin-ok m t [] a h =
      let (r, c) = m (record { tables = t; faults = [] }) in
      let k = finish-ok t r c a h in ([], k.0, k.1)
  begin-ok m t (none ∷ fs) a h =
      let (r, c) = m (record { tables = t; faults = fs }) in
      let k = finish-ok t r c a h in (fs, k.0, k.1)
  begin-ok m t (some e ∷ fs) a h = cc

  pub transaction-ok :
      (m : Exec A) (c : Conn) (a : A)
      → (transaction m c).0 ≡ ok a
      → Committed m c.tables a (transaction m c).1
  unfolding transaction
  transaction-ok m c a h = begin-ok m c.tables c.faults a h

module _ {ℓ κ} {A : Type ℓ} {B : Type κ} where
  continue-ok :
      (r : Result A) (f : A → Exec B) (c : Conn) (b : B)
      → (continue r f c).0 ≡ ok b
      → (a : A) × (r ≡ ok a) × (continue r f c ≡ f a c)
  continue-ok (ok a) f c b h = (a, refl, refl)
  continue-ok (err e) f c b h = cc

  -- Both parts of a chain that succeeds have succeeded.
  pub bind-ok :
      (m : Exec A) (f : A → Exec B) (c : Conn) (b : B)
      → ((m >>= f) c).0 ≡ ok b
      → (a : A) × ((m c).0 ≡ ok a) × ((m >>= f) c ≡ f a (m c).1)
  bind-ok m f c b h = let (r, c') = m c in continue-ok r f c' b h

  call_then-ok :
      (q : Tables → Result A × Tables) (f : A → Exec B) (t : Tables) (fs : List (Option Text))
      (b : B)
      → (let (r, c) = call q t fs in (continue r f c).0 ≡ ok b)
      → (a : A) × (fs' : List (Option Text)) × ((q t).0 ≡ ok a)
        × ((let (r, c) = call q t fs in continue r f c)
            ≡ f a (record { tables = (q t).1; faults = fs' }))
  unfolding call
  call_then-ok q f t [] b h =
      let (r, t') = q t in
      let k = continue-ok r f (record { tables = t'; faults = [] }) b h in (k.0, [], k.1, k.2)
  call_then-ok q f t (none ∷ fs) b h =
      let (r, t') = q t in
      let k = continue-ok r f (record { tables = t'; faults = fs }) b h in (k.0, fs, k.1, k.2)
  call_then-ok q f t (some e ∷ fs) b h = cc

  -- A chain that begins with a statement and succeeds: the statement has run, and the rest goes on
  -- from the tables that it left.
  pub statement_then-ok :
      (q : Tables → Result A × Tables) (f : A → Exec B) (c : Conn) (b : B)
      → ((statement q >>= f) c).0 ≡ ok b
      → (a : A) × (fs : List (Option Text)) × ((q c.tables).0 ≡ ok a)
        × ((statement q >>= f) c ≡ f a (record { tables = (q c.tables).1; faults = fs }))
  unfolding statement
  statement_then-ok q f c b h = call_then-ok q f c.tables c.faults b h

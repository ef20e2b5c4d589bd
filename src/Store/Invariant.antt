-- ===== src/Store/Invariant.antt =====
-- The tables' well-formedness: ids are unique and below the counters, every log line belongs to a
-- job, every job is in a known state and may be tried at least once, and no setting is stored twice.
pub mod Methods
pub mod Scans
pub mod Commands
use mirrortools.Store.Settings.RoundTrip.{UniqueKeys}
use mirrortools.Prelude.{
  ℕ, suc, ◌+◌, ◌≤◌, ◌<◌, ◌≡◌, refl, ap, sym, Bool, true, false, not, ◌&&◌, ◌||◌, Option, none, some,
  List, [], ◌∷◌, ◌++◌, map, if◌then◌else◌, ◌==◌, nat_has_eq, nat_eq_iff, arith, contains, count,
  select, All, All-append, All-impl, All-zip, All-select, Bool-cases, inl, inr,
}
use mathlib.Core.Path.{subst}
use mirrortools.Job.{State, valid, JobLog}
use mirrortools.Store.Tables.{Row, Tables, Result, ok, err, empty_tables}
use mirrortools.Store.Sql.{
  update_where, delete_where, ids, update, delete, insert_row, insert_log, query, Ascends,
  Ascends-weaken, ids-update_where, Ascends-update_where, All-update_where,
}

pub record IsSound (r : Row) : Type 0 where
  pub known : valid r.state ≡ true
  pub tries : 1 ≤ r.max_retries

abbrev pub LogsAscend : ℕ → List JobLog → Type 0
LogsAscend n [] = Unit
LogsAscend n (l ∷ ls) = (n ≤ l.id) × LogsAscend (suc l.id) ls

abbrev pub HasParent : List Row → JobLog → Type 0
HasParent rows l = contains (ids rows) l.job_id ≡ true

pub record IsValid (t : Tables) : Type 0 where
  pub ascends : Ascends 1 t.jobs
  pub fresh : All (λ r. r.id < t.next_job) t.jobs
  pub counted : 1 ≤ t.next_job
  pub sound : All IsSound t.jobs
  pub parents : All (HasParent t.jobs) t.logs
  pub log_order : LogsAscend 1 t.logs
  pub log_fresh : All (λ l. l.id < t.next_log) t.logs
  pub log_counted : 1 ≤ t.next_log
  pub keys : UniqueKeys t.settings

pub empty-IsValid : IsValid empty_tables
empty-IsValid = record {
  ascends = tt;
  fresh = tt;
  counted = omega arith;
  sound = tt;
  parents = tt;
  log_order = tt;
  log_fresh = tt;
  log_counted = omega arith;
  keys = tt;
}

-- What an UPDATE may do to a row.
pub record IsMild (f : Row → Row) : Type 0 where
  pub keeps_id : (r : Row) → (f r).id ≡ r.id
  pub keeps_sound : (r : Row) → IsSound r → IsSound (f r)

update_where-IsSound :
    (p : Row → Bool) (f : Row → Row) (mild : IsMild f) (rows : List Row)
    → All IsSound rows
    → All IsSound (update_where p f rows)
unfolding update_where
update_where-IsSound p f mild [] h = tt
update_where-IsSound p f mild (r ∷ rs) h = elim (Bool-cases (p r)) [
  | inl e ↦ rw e (mild.keeps_sound r h.0, update_where-IsSound p f mild rs h.1)
  | inr e ↦ rw e (h.0, update_where-IsSound p f mild rs h.1)
]

pub update-IsValid :
    (p : Row → Bool) (f : Row → Row)
    → IsMild f
    → (t : Tables) → IsValid t
    → IsValid (update p f t).1
unfolding update
update-IsValid p f mild t v = record {
  ascends = Ascends-update_where p f mild.keeps_id 1 t.jobs v.ascends;
  fresh = All-update_where p f mild.keeps_id t.next_job t.jobs v.fresh;
  counted = v.counted;
  sound = update_where-IsSound p f mild t.jobs v.sound;
  parents =
      subst (λ is. All (λ l. contains is l.job_id ≡ true) t.logs)
        (sym (ids-update_where p f mild.keeps_id t.jobs)) v.parents;
  log_order = v.log_order;
  log_fresh = v.log_fresh;
  log_counted = v.log_counted;
  keys = v.keys;
}

Ascends-append :
    (n m : ℕ) (rows : List Row) (r : Row)
    → Ascends n rows
    → All (λ x. x.id < m) rows
    → n ≤ m
    → r.id ≡ m
    → Ascends n (rows ++ r ∷ [])
Ascends-append n m [] r a h k e = (omega arith, tt)
Ascends-append n m (x ∷ xs) r a h k e =
    (a.0, Ascends-append (suc x.id) m xs r a.1 h.1 (omega arith) e)

contains-append :
    (rows : List Row) (r : Row) (i : ℕ)
    → contains (ids rows) i ≡ true
    → contains (ids (rows ++ r ∷ [])) i ≡ true
unfolding contains
contains-append [] r i h = cc
contains-append (x ∷ xs) r i h = ground (arith, contains-append xs r i)

pub insert_row-IsValid :
    (r : Row) → IsSound r → (t : Tables) → IsValid t → IsValid (insert_row r t).1
unfolding insert_row
insert_row-IsValid r s t v =
    let new = record r { id = t.next_job } in
    record {
      ascends = Ascends-append 1 t.next_job t.jobs new v.ascends v.fresh v.counted refl;
      fresh =
          All-append _ t.jobs (new ∷ [])
            (All-impl (λ x. x.id < t.next_job) (λ x. x.id < suc t.next_job) t.jobs
              (λ x h. omega arith) v.fresh)
            (omega arith, tt);
      counted = omega (arith, v.counted);
      sound =
          All-append IsSound t.jobs (new ∷ []) v.sound
            (record { known = s.known; tries = s.tries }, tt);
      parents =
          All-impl (HasParent t.jobs) (HasParent (t.jobs ++ new ∷ [])) t.logs
            (λ l. contains-append t.jobs new l.job_id) v.parents;
      log_order = v.log_order;
      log_fresh = v.log_fresh;
      log_counted = v.log_counted;
      keys = v.keys;
    }

LogsAscend-append :
    (n m : ℕ) (logs : List JobLog) (l : JobLog)
    → LogsAscend n logs
    → All (λ x. x.id < m) logs
    → n ≤ m
    → l.id ≡ m
    → LogsAscend n (logs ++ l ∷ [])
LogsAscend-append n m [] l a h k e = (omega arith, tt)
LogsAscend-append n m (x ∷ xs) l a h k e =
    (a.0, LogsAscend-append (suc x.id) m xs l a.1 h.1 (omega arith) e)

pub insert_log-IsValid : (l : JobLog) (t : Tables) → IsValid t → IsValid (insert_log l t).1
unfolding insert_log
insert_log-IsValid l t v = elim (Bool-cases (contains (ids t.jobs) l.job_id)) [
  | inr e ↦ rw e v
  | inl e ↦
      let new = record l { id = t.next_log } in
      rw e (record {
        ascends = v.ascends;
        fresh = v.fresh;
        counted = v.counted;
        sound = v.sound;
        parents = All-append (HasParent t.jobs) t.logs (new ∷ []) v.parents (e, tt);
        log_order =
            LogsAscend-append 1 t.next_log t.logs new v.log_order v.log_fresh v.log_counted refl;
        log_fresh =
            All-append _ t.logs (new ∷ [])
              (All-impl (λ x. x.id < t.next_log) (λ x. x.id < suc t.next_log) t.logs
                (λ x h. omega arith) v.log_fresh)
              (omega arith, tt);
        log_counted = omega (arith, v.log_counted);
        keys = v.keys;
      })
]

Ascends-delete_where :
    (p : Row → Bool) (n : ℕ) (rows : List Row) → Ascends n rows → Ascends n (delete_where p rows)
unfolding delete_where
Ascends-delete_where p n [] a = tt
Ascends-delete_where p n (r ∷ rs) a = elim (Bool-cases (p r)) [
  | inl e ↦ rw e (
      Ascends-weaken n (suc r.id) (delete_where p rs) (omega arith)
        (Ascends-delete_where p (suc r.id) rs a.1))
  | inr e ↦ rw e (a.0, Ascends-delete_where p (suc r.id) rs a.1)
]

All-delete_where :
    (P : Row → Type 0) (p : Row → Bool) (rows : List Row) → All P rows → All P (delete_where p rows)
unfolding delete_where
All-delete_where P p [] h = tt
All-delete_where P p (r ∷ rs) h = elim (Bool-cases (p r)) [
  | inl e ↦ rw e (All-delete_where P p rs h.1)
  | inr e ↦ rw e (h.0, All-delete_where P p rs h.1)
]

-- An id of the table is deleted or stays.
contains-delete_where :
    (p : Row → Bool) (rows : List Row) (i : ℕ)
    → contains (ids rows) i ≡ true
    → contains (ids (select p rows)) i ≡ false
    → contains (ids (delete_where p rows)) i ≡ true
unfolding delete_where select contains
contains-delete_where p [] i h k = cc
contains-delete_where p (r ∷ rs) i h k = ground (arith, contains-delete_where p rs i)

LogsAscend-weaken : (m n : ℕ) (logs : List JobLog) → m ≤ n → LogsAscend n logs → LogsAscend m logs
LogsAscend-weaken m n [] h a = tt
LogsAscend-weaken m n (l ∷ ls) h a = (omega arith, a.1)

LogsAscend-select :
    (p : JobLog → Bool) (n : ℕ) (logs : List JobLog)
    → LogsAscend n logs
    → LogsAscend n (select p logs)
unfolding select
LogsAscend-select p n [] a = tt
LogsAscend-select p n (l ∷ ls) a = elim (Bool-cases (p l)) [
  | inl e ↦ rw e (a.0, LogsAscend-select p (suc l.id) ls a.1)
  | inr e ↦ rw e (
      LogsAscend-weaken n (suc l.id) (select p ls) (omega arith)
        (LogsAscend-select p (suc l.id) ls a.1))
]

pub delete-IsValid : (p : Row → Bool) (t : Tables) → IsValid t → IsValid (delete p t).1
unfolding delete
delete-IsValid p t v =
    let gone = λ (l : JobLog). contains (ids (select p t.jobs)) l.job_id in
    let stay = λ (l : JobLog). not (gone l) in
    record {
      ascends = Ascends-delete_where p 1 t.jobs v.ascends;
      fresh = All-delete_where (λ r. r.id < t.next_job) p t.jobs v.fresh;
      counted = v.counted;
      sound = All-delete_where IsSound p t.jobs v.sound;
      parents =
          All-impl (λ l. HasParent t.jobs l × (stay l ≡ true)) (HasParent (delete_where p t.jobs))
            (select stay t.logs)
            (λ l h. contains-delete_where p t.jobs l.job_id h.0 (ground (arith, h.1)))
            (All-select stay (HasParent t.jobs) t.logs v.parents);
      log_order = LogsAscend-select stay 1 t.logs v.log_order;
      log_fresh =
          All-impl (λ l. (l.id < t.next_log) × (stay l ≡ true)) (λ l. l.id < t.next_log)
            (select stay t.logs) (λ l h. h.0)
            (All-select stay (λ l. l.id < t.next_log) t.logs v.log_fresh);
      log_counted = v.log_counted;
      keys = v.keys;
    }

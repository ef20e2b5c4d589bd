-- ===== src/Store/Batch/Targets.antt =====
-- What a batch by prefix finds, and that it affects every job that it finds.
use mirrortools.Prelude.{
  ℕ, suc, ◌≤◌, ◌<◌, ◌≡◌, ◌≢◌, refl, sym, ap, ◌∙◌, Bool, true, false, ◌&&◌, List, [], ◌∷◌,
  nat_has_eq, text_has_eq, Text, arith, contains, count, select, length, length-select, length-map,
  All, All-zip, All-impl, trim_space, trim_slash, text_eq_iff,
}
use mirrortools.Job.{
  queued, paused, quarantined, Time, Platform, BatchActionKind, batch_pause, batch_resume,
  batch_quarantine, batch_unquarantine, batch_cancel, batch_retry, batch_delete, batch_other,
  BatchRequest,
}
use mirrortools.Store.Tables.{Row, Tables, ok, statement}
use mirrortools.Store.Sql.{update, delete, query, ids, Ascends, Ascends-All}
use mirrortools.Store.Jobs.{in_state, cancellable, deletable, always}
use mirrortools.Store.Lifecycle.{sound}
use mirrortools.Store.Batch.{
  match_prefix, state_in, matching_ids, among, batch_states, batch_statement, batch_targets,
  batch_result, act_on, batch_action,
}

contains-above :
    (m : Row → Bool) (n i : ℕ) (rows : List Row)
    → Ascends n rows
    → i < n
    → contains (ids (select m rows)) i ≡ false
unfolding contains select
contains-above m n i [] a h = refl
contains-above m n i (r ∷ rs) a h = ground (arith, contains-above m (suc r.id) i rs a.1)

-- As ids are unique, a row's id is among those selected exactly if the row is.
contains-select :
    (m : Row → Bool) (n : ℕ) (rows : List Row)
    → Ascends n rows
    → All (λ r. contains (ids (select m rows)) r.id ≡ m r) rows
contains-select m n [] a = tt
contains-select m n (r ∷ rs) a = (
  unfold contains select in ground (arith, contains-above m (suc r.id) r.id rs a.1),
  All-zip (λ x. suc r.id ≤ x.id) (λ x. contains (ids (select m rs)) x.id ≡ m x)
      (λ x. contains (ids (select m (r ∷ rs))) x.id ≡ m x) rs
      (λ x above ih. unfold contains select in ground (arith, ih)) (Ascends-All (suc r.id) rs a.1)
      (contains-select m (suc r.id) rs a.1),
)

count-eq :
    (p q : Row → Bool) (rows : List Row) → All (λ r. p r ≡ q r) rows → count p rows ≡ count q rows
unfolding count
count-eq p q [] h = refl
count-eq p q (r ∷ rs) h = ground (arith, count-eq p q rs h.1)

-- Rows that were selected by a test which implies q are counted by q.
count-among :
    (m q : Row → Bool) (n : ℕ) (rows : List Row)
    → Ascends n rows
    → ((r : Row) → m r ≡ true → q r ≡ true)
    → count (among (ids (select m rows)) q) rows ≡ length (ids (select m rows))
count-among m q n rows a implies =
    count-eq (among (ids (select m rows)) q) m rows (
      All-impl (λ r. contains (ids (select m rows)) r.id ≡ m r)
        (λ r. among (ids (select m rows)) q r ≡ m r) rows (λ r h. ground (arith, h, implies r))
        (contains-select m n rows a))
    ∙ sym (length-select m rows)
    ∙ sym (length-map (λ (r : Row). r.id) (select m rows))

abbrev pub known : BatchActionKind → Bool
known (batch_other _) = false
known _ = true

-- The test of a batch by prefix.
abbrev pub selected : Platform → BatchRequest → Row → Bool
selected p req r =
    let clean = trim_space req.prefix in
    state_in (batch_states req.action) r && match_prefix p r.source r.site clean (trim_slash clean)

module _ (p : Platform) (now : Time) (n : ℕ) (t : Tables) (rows : Ascends n t.jobs) where
  affected-eq-matched :
      (a : BatchActionKind) (m : Row → Bool) (reason : Text)
      → known a ≡ true
      → ((r : Row) → m r ≡ true → state_in (batch_states a) r ≡ true)
      → (batch_statement a (ids (select m t.jobs)) reason now (sound t)).0
        ≡ ok (length (ids (select m t.jobs)))
  unfolding batch_statement update delete statement batch_states contains
  affected-eq-matched batch_pause m reason k h =
      ap ok (count-among m (in_state queued) n t.jobs rows (λ r e. ground (arith, h r)))
  affected-eq-matched batch_resume m reason k h =
      ap ok (count-among m (in_state paused) n t.jobs rows (λ r e. ground (arith, h r)))
  affected-eq-matched batch_quarantine m reason k h =
      ap ok (count-among m always n t.jobs rows (λ r e. refl))
  affected-eq-matched batch_unquarantine m reason k h =
      ap ok (count-among m (in_state quarantined) n t.jobs rows (λ r e. ground (arith, h r)))
  affected-eq-matched batch_cancel m reason k h =
      ap ok (count-among m cancellable n t.jobs rows (λ r e. ground (arith, h r)))
  affected-eq-matched batch_retry m reason k h =
      ap ok (count-among m always n t.jobs rows (λ r e. refl))
  affected-eq-matched batch_delete m reason k h =
      ap ok (count-among m deletable n t.jobs rows (λ r e. ground (arith, h r)))
  affected-eq-matched (batch_other name) m reason k h = cc

  acted :
      (req : BatchRequest) (is : List ℕ)
      → (batch_statement req.action is req.reason now (sound t)).0 ≡ ok (length is)
      → (act_on p req now is (sound t)).0 ≡ ok (batch_result p req is (length is))
  unfolding act_on
  acted req [] h = refl
  acted req (i ∷ is) h = ground (arith, h)

  targets_by_prefix :
      (req : BatchRequest)
      → req.ids ≡ []
      → req.prefix ≢ []
      → batch_targets p req (sound t) ≡ (ok (ids (select (selected p req) t.jobs)), sound t)
  unfolding batch_targets matching_ids query statement
  targets_by_prefix req e ne = ground (arith, e, text_eq_iff req.prefix [])

  -- Over tables whose ids ascend, while the driver does not fail: a batch by a prefix that is not
  -- empty, with no ids and an action that there is, matches the jobs that are in the action's
  -- states and under the prefix, and affects every job that it matches.
  pub batch_action_by_prefix :
      (req : BatchRequest)
      → known req.action ≡ true
      → req.ids ≡ []
      → req.prefix ≢ []
      → (batch_action p req now (sound t)).0
        ≡ ok (
            batch_result p req
              (ids (select (selected p req) t.jobs))
              (length (ids (select (selected p req) t.jobs))))
  unfolding batch_action
  batch_action_by_prefix req k e ne = rw (targets_by_prefix req e ne) (
      acted req (ids (select (selected p req) t.jobs))
        (affected-eq-matched req.action (selected p req) req.reason k (λ r h. ground arith)))

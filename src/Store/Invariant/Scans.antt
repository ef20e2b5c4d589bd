-- ===== src/Store/Invariant/Scans.antt =====
-- The methods that read rows or choose the jobs to act on keep the tables well formed.

use mirrortools.Prelude.{
  ℕ, ◌≤◌, refl, Bool, Option, none, some, List, [], ◌∷◌, if◌then◌else◌, Text, ℤ, arith, positive_or,
  not, ◌==◌, text_has_eq,
}
use mirrortools.Job.{
  queued, paused, valid, Job, Time, Platform, BatchRequest, batch_pause, batch_resume,
  batch_quarantine, batch_unquarantine, batch_cancel, batch_retry, batch_delete, batch_other,
  BatchActionKind,
}
use mirrortools.Store.Tables.{Row, Exec, pure, statement, job_not_found}
use mirrortools.Store.Sql.{update, query, at_id}
use mirrortools.Store.Jobs.{
  always, quarantined_row, reset_row, with_state, cancelled_row, get_job, retry_job, with_defaults,
  new_row, enqueue_job, scanned,
}
use mirrortools.Store.Claim.{started_row, claim, claim_next_job}
use mirrortools.Store.Batch.{
  among, batch_statement, batch_targets, batch_states, matching_ids, batch_action, freed_row,
  batch_reason, act_on,
}
use mirrortools.Store.Keeps.{Keeps, Keeps-statement, Keeps-pure, Keeps-raise, Keeps-bind}
use mirrortools.Store.Invariant.{IsSound, IsValid, insert_row-IsValid}
use mirrortools.Store.Invariant.Methods.{
  valid_rules, Keeping, update-Keeps, delete-Keeps, query-Keeps, needs_row-Keeps, if-Keeps,
}

among-Keeps :
    (f : Row → Row) (targets : List ℕ) (q : Row → Bool)
    → Keeping f
    → Keeps IsValid (statement (update (among targets q) f))
among-Keeps f targets q k = update-Keeps f (among targets q) k

batch_statement-Keeps :
    (a : BatchActionKind) (targets : List ℕ) (reason : Text) (now : Time)
    → Keeps IsValid (batch_statement a targets reason now)
unfolding batch_statement valid
batch_statement-Keeps batch_pause targets reason now =
    among-Keeps (with_state paused) targets _ (λ r. (refl, refl, refl))
batch_statement-Keeps batch_resume targets reason now =
    among-Keeps (with_state queued) targets _ (λ r. (refl, refl, refl))
batch_statement-Keeps batch_quarantine targets reason now =
    among-Keeps (quarantined_row (batch_reason reason) now) targets _ (λ r. (refl, refl, refl))
batch_statement-Keeps batch_unquarantine targets reason now =
    among-Keeps freed_row targets _ (λ r. (refl, refl, refl))
batch_statement-Keeps batch_cancel targets reason now =
    among-Keeps (cancelled_row now) targets _ (λ r. (refl, refl, refl))
batch_statement-Keeps batch_retry targets reason now =
    among-Keeps reset_row targets _ (λ r. (refl, refl, refl))
batch_statement-Keeps batch_delete targets reason now = delete-Keeps _
batch_statement-Keeps (batch_other name) targets reason now = Keeps-raise _

module _ (p : Platform) where
  scanned-Keeps : (o : Option Row) → Keeps IsValid (scanned p o)
  scanned-Keeps none = Keeps-raise _
  scanned-Keeps (some r) = Keeps-pure _

  pub get_job-Keeps : (i : ℕ) → Keeps IsValid (get_job p i)
  unfolding get_job
  get_job-Keeps i = search (valid_rules, scanned-Keeps)

  pub retry_job-Keeps : (i : ℕ) → Keeps IsValid (retry_job p i)
  unfolding retry_job valid
  retry_job-Keeps i =
      Keeps-bind _ _ (update-Keeps reset_row (at_id i always) (λ r. (refl, refl, refl))) λ n.
        Keeps-bind _ _ (needs_row-Keeps job_not_found n) λ _. search (valid_rules, scanned-Keeps)

  claim-Keeps : (now : Time) (o : Option Row) → Keeps IsValid (claim p now o)
  unfolding claim valid
  claim-Keeps now none = search valid_rules
  claim-Keeps now (some r) =
      search
        (valid_rules, update-Keeps (started_row now) (at_id r.id always) (λ x. (refl, refl, refl)))

  pub claim_next_job-Keeps : (now : Time) → Keeps IsValid (claim_next_job p now)
  unfolding claim_next_job
  claim_next_job-Keeps now = search (valid_rules, claim-Keeps)

  positive_or-pos : (n : ℤ) → 1 ≤ positive_or 3 n
  positive_or-pos n = ground arith

  -- A job that is stored without a state is queued.
  new_row-IsSound : (job : Job) (now : Time) → IsSound (new_row p (with_defaults p job now))
  unfolding new_row with_defaults valid
  new_row-IsSound job now = record { known = ground arith; tries = ground arith }

  pub enqueue_job-Keeps : (job : Job) (now : Time) → Keeps IsValid (enqueue_job p job now)
  unfolding enqueue_job
  enqueue_job-Keeps job now =
      Keeps-bind _ _
        (Keeps-statement _
          (insert_row-IsValid (new_row p (with_defaults p job now)) (new_row-IsSound job now)))
        (λ i. Keeps-pure _)

  batch_targets-Keeps : (req : BatchRequest) → Keeps IsValid (batch_targets p req)
  unfolding batch_targets
  batch_targets-Keeps req = of_ids req.ids
    where
      of_ids :
          (is : List ℕ)
          → Keeps IsValid (elim is as (λ _. Exec (List ℕ)) [
            | [] ↦
                if not (req.prefix == [])
                then statement
                    (query (λ t. matching_ids p req.prefix (batch_states req.action) t.jobs))
                else pure []
            | j ∷ js ↦ pure (j ∷ js)
          ])
      of_ids [] = if-Keeps _ _ _ (query-Keeps _) (Keeps-pure _)
      of_ids (j ∷ js) = Keeps-pure _

  act_on-Keeps :
      (req : BatchRequest) (now : Time) (is : List ℕ) → Keeps IsValid (act_on p req now is)
  unfolding act_on
  act_on-Keeps req now [] = search valid_rules
  act_on-Keeps req now (i ∷ is) = search (valid_rules, batch_statement-Keeps)

  pub batch_action-Keeps :
      (req : BatchRequest) (now : Time) → Keeps IsValid (batch_action p req now)
  unfolding batch_action
  batch_action-Keeps req now = search (valid_rules, batch_targets-Keeps, act_on-Keeps)

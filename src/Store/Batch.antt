-- ===== src/Store/Batch.antt =====
-- BatchAction of store.go, with matchPrefix and matchingJobIDs.
pub mod Effect
pub mod Targets
use mirrortools.Prelude.{
  ℕ, Bool, true, false, ◌&&◌, ◌||◌, not, none, some, List, [], ◌∷◌, ◌++◌, if◌then◌else◌, ◌==◌,
  nat_has_eq, Text, codes, text_has_eq, contains, select, length, slash, has_prefix, equal_fold,
  to_lower, trim_space, trim_slash,
}
use mirrortools.Job.{
  State, queued, running, paused, completed, failed, quarantined, cancelled, state_has_eq, Time,
  Platform, Url, has_host, BatchActionKind, batch_pause, batch_resume, batch_quarantine,
  batch_unquarantine, batch_cancel, batch_retry, batch_delete, batch_other, BatchRequest,
  BatchResult,
}
use mirrortools.Store.Tables.{unknown_batch_action, Row, Exec, ◌>>=◌, pure, raise, statement}
use mirrortools.Store.Sql.{update, delete, query, ids}
use mirrortools.Store.Jobs.{
  in_state, with_state, quarantined_row, cancellable, cancelled_row, reset_row, deletable,
}

-- The tests of matchPrefix on a parsed URL with a host.
url_matches : Url → Text → Text → Bool
unfolding has_prefix equal_fold to_lower
url_matches u source no_slash =
    equal_fold u.host no_slash
    || equal_fold u.hostname no_slash
    || equal_fold (u.scheme ++ (codes "://" ++ u.host)) no_slash
    || has_prefix source (no_slash ++ slash ∷ [])
    || equal_fold (u.host ++ u.path) no_slash
    || has_prefix (to_lower (u.host ++ u.path)) (to_lower no_slash ++ slash ∷ [])

-- AND state IN (…), left out where no states are given.
abbrev pub state_in : List State → Row → Bool
state_in [] r = true
state_in (s ∷ ss) r = contains (s ∷ ss) r.state

module _ (p : Platform) where
  -- matchPrefix
  unfoldable pub match_prefix : Text → Text → Text → Text → Bool
  unfolding url_matches has_prefix
  match_prefix source site prefix no_slash =
      (prefix == [] || prefix == codes "*" || prefix == codes "all")
      || (source == prefix || source == no_slash)
      || (site == prefix || site == no_slash)
      || has_prefix source (no_slash ++ slash ∷ [])
      || elim (p.parse_url source) [
        | none ↦ false
        | some u ↦ if has_host u then url_matches u source no_slash else false
      ]

  -- matchingJobIDs
  unfoldable pub matching_ids : Text → List State → List Row → List ℕ
  unfolding match_prefix contains select trim_space trim_slash
  matching_ids prefix states rows =
      let clean = trim_space prefix in
      ids (
        select (λ r. state_in states r && match_prefix r.source r.site clean (trim_slash clean))
          rows)

-- The states that a batch by prefix looks at.
unfoldable pub batch_states : BatchActionKind → List State
batch_states batch_pause = queued ∷ []
batch_states batch_resume = paused ∷ []
batch_states batch_quarantine = queued ∷ paused ∷ failed ∷ running ∷ []
batch_states batch_unquarantine = quarantined ∷ []
batch_states batch_cancel = queued ∷ paused ∷ running ∷ []
batch_states batch_retry = failed ∷ completed ∷ cancelled ∷ []
batch_states batch_delete = completed ∷ failed ∷ cancelled ∷ quarantined ∷ []
batch_states (batch_other _) = []

-- WHERE id IN (…) AND …
abbrev pub among : List ℕ → (Row → Bool) → Row → Bool
among targets q r = contains targets r.id && q r

abbrev pub batch_reason : Text → Text
batch_reason reason = if not (reason == []) then reason else codes "quarantined via batch action"

abbrev pub freed_row : Row → Row
freed_row r = record r { state = queued; quarantine_reason = some []; retry_count = 0 }

-- The statement of each action, and how many rows it affects.
unfoldable pub batch_statement : BatchActionKind → List ℕ → Text → Time → Exec ℕ
unfolding contains update delete statement
batch_statement batch_pause targets reason now =
    statement (update (among targets (in_state queued)) (with_state paused))
batch_statement batch_resume targets reason now =
    statement (update (among targets (in_state paused)) (with_state queued))
batch_statement batch_quarantine targets reason now =
    statement (update (among targets (λ r. true)) (quarantined_row (batch_reason reason) now))
batch_statement batch_unquarantine targets reason now =
    statement (update (among targets (in_state quarantined)) freed_row)
batch_statement batch_cancel targets reason now =
    statement (update (among targets cancellable) (cancelled_row now))
batch_statement batch_retry targets reason now =
    statement (update (among targets (λ r. true)) reset_row)
batch_statement batch_delete targets reason now = statement (delete (among targets deletable))
batch_statement (batch_other name) targets reason now = raise (unknown_batch_action name)

module _ (p : Platform) where
  -- The ids that are given, or else those that the prefix finds.
  unfoldable pub batch_targets : BatchRequest → Exec (List ℕ)
  unfolding matching_ids batch_states statement query
  batch_targets req = elim req.ids [
    | [] ↦
        if not (req.prefix == [])
        then statement (query (λ t. matching_ids p req.prefix (batch_states req.action) t.jobs))
        else pure []
    | i ∷ is ↦ pure (i ∷ is)
  ]

  abbrev pub batch_result : BatchRequest → List ℕ → ℕ → BatchResult
  batch_result req targets affected = record {
    action = req.action;
    target = req.prefix;
    matched = length targets;
    affected = affected;
    job_ids = targets;
  }

  unfoldable pub act_on : BatchRequest → Time → List ℕ → Exec BatchResult
  unfolding batch_statement
  act_on req now [] = pure (batch_result req [] 0)
  act_on req now (i ∷ is) = do
    affected ← batch_statement req.action (i ∷ is) req.reason now
    pure (batch_result req (i ∷ is) affected)

  -- BatchAction
  unfoldable pub batch_action : BatchRequest → Time → Exec BatchResult
  unfolding batch_targets act_on
  batch_action req now = do targets ← batch_targets req; act_on req now targets

-- ===== src/Store/Listing/Counts.antt =====
-- GetCounts counts the jobs of each state, and together all of them.
use mirrortools.Prelude.{
  ℕ, ◌+◌, ◌≡◌, refl, ap, ◌∙◌, true, false, Option, some, List, [], ◌∷◌, if◌then◌else◌, ◌==◌, arith,
  count, length, insert, lookup, lookup-insert, All, map, nat_eq, contains, ◌++◌,
}
use mirrortools.Job.{
  State, unset, queued, running, paused, completed, failed, quarantined, cancelled, state_has_eq,
  state_eq_iff, valid,
}
use mirrortools.Store.Tables.{Row, Tables, ok, statement}
use mirrortools.Store.Sql.{query}
use mirrortools.Store.Jobs.{in_state}
use mirrortools.Store.Lifecycle.{sound}
use mirrortools.Store.Invariant.{IsSound, IsValid}
use mirrortools.Store.Listing.{all_states, put_counts, get_counts}

abbrev count_of : List Row → List State → State → Option ℕ → Option ℕ
count_of rows [] s o = o
count_of rows (x ∷ xs) s o =
    count_of rows xs s
      (let n = count (in_state x) rows in if nat_eq n 0 then o else if x == s then some n else o)

lookup-put_counts :
    (rows : List Row) (ss : List State) (s : State) (m : List (State × ℕ))
    → lookup s (put_counts rows ss m) ≡ count_of rows ss s (lookup s m)
unfolding put_counts
lookup-put_counts rows [] s m = refl
lookup-put_counts rows (x ∷ xs) s m =
    let n = count (in_state x) rows in
    lookup-put_counts rows xs s (if nat_eq n 0 then m else insert x n m)
    ∙ ap (count_of rows xs s) (ground (arith, lookup-insert x s n m))

abbrev counts_of : Tables → List (State × ℕ)
counts_of t = put_counts t.jobs all_states (map (λ s. (s, 0)) all_states)

module _ (rows : List Row) (s : State) where
  count_of-miss :
      (ss : List State) (o : Option ℕ) → contains ss s ≡ false → count_of rows ss s o ≡ o
  unfolding contains
  count_of-miss [] o h = refl
  count_of-miss (x ∷ xs) o h = ground (arith, count_of-miss xs o)

  -- A state that stands in the list once has its number.
  count_of-hit :
      (before after : List State)
      → contains before s ≡ false
      → contains after s ≡ false
      → count_of rows (before ++ s ∷ after) s (some 0) ≡ some (count (in_state s) rows)
  unfolding contains
  count_of-hit [] after h k = count_of-miss after _ k ∙ ground (arith, state_eq_iff s s)
  count_of-hit (x ∷ xs) after h k =
      ap (count_of rows (xs ++ s ∷ after) s) (ground (arith, h))
      ∙ count_of-hit xs after (ground (arith, h)) k

counted :
    (rows : List Row) (s : State)
    → valid s ≡ true
    → count_of rows all_states s (lookup s (map (λ x. (x, 0)) all_states))
      ≡ some (count (in_state s) rows)
unfolding valid lookup contains
counted rows unset v = cc
counted rows queued v =
    count_of-hit rows queued []
      (running ∷ paused ∷ completed ∷ failed ∷ quarantined ∷ cancelled ∷ []) refl refl
counted rows running v =
    count_of-hit rows running (queued ∷ [])
      (paused ∷ completed ∷ failed ∷ quarantined ∷ cancelled ∷ []) refl refl
counted rows paused v =
    count_of-hit rows paused (queued ∷ running ∷ [])
      (completed ∷ failed ∷ quarantined ∷ cancelled ∷ []) refl refl
counted rows completed v =
    count_of-hit rows completed (queued ∷ running ∷ paused ∷ [])
      (failed ∷ quarantined ∷ cancelled ∷ []) refl refl
counted rows failed v =
    count_of-hit rows failed (queued ∷ running ∷ paused ∷ completed ∷ [])
      (quarantined ∷ cancelled ∷ []) refl refl
counted rows quarantined v =
    count_of-hit rows quarantined (queued ∷ running ∷ paused ∷ completed ∷ failed ∷ [])
      (cancelled ∷ []) refl refl
counted rows cancelled v =
    count_of-hit rows cancelled (queued ∷ running ∷ paused ∷ completed ∷ failed ∷ quarantined ∷ [])
      [] refl refl

abbrev pub total : List ℕ → ℕ
total [] = 0
total (n ∷ ns) = n + total ns

total_of :
    (rows : List Row)
    → All IsSound rows
    → total (map (λ s. count (in_state s) rows) all_states) ≡ length rows
unfolding count valid
total_of [] h = refl
total_of (r ∷ rs) h = ground (arith, total_of rs h.1, h.0.known)

-- Over well-formed tables, while the driver does not fail, the entry that GetCounts has for each
-- known state is the number of jobs in it, and these numbers add up to the number of jobs.
pub get_counts-count :
    (t : Tables)
    → IsValid t
    → (m : List (State × ℕ)) × ((get_counts (sound t)).0 ≡ ok m)
      × ((s : State) → valid s ≡ true → lookup s m ≡ some (count (in_state s) t.jobs))
      × (total (map (λ s. count (in_state s) t.jobs) all_states) ≡ length t.jobs)
unfolding get_counts query statement
get_counts-count t v = (
  counts_of t,
  refl,
  λ s k. lookup-put_counts t.jobs all_states s _ ∙ counted t.jobs s k,
  total_of t.jobs v.sound,
)

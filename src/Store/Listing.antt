-- ===== src/Store/Listing.antt =====
-- ListJobs and GetCounts of store.go.
pub mod Counts
pub mod Wanted
pub mod Pages
use mirrortools.Prelude.{
  ℕ, Bool, false, ◌&&◌, ◌||◌, List, [], ◌∷◌, ◌++◌, map, if◌then◌else◌, ◌==◌, nat_has_eq, nat_eq,
  ltb, Text, codes, text_has_eq, text_lt, select, count, insert, then_by, descending, by_key,
  sort_by, ℤ, trim_right, trim_slash, has_infix, slash, lower,
}
use mirrortools.Job.{
  State, queued, running, paused, completed, failed, quarantined, cancelled, state_has_eq, Job,
  Platform,
}
use mirrortools.Store.Tables.{Row, Exec, ◌>>=◌, pure, statement}
use mirrortools.Store.Sql.{query}
use mirrortools.Store.Jobs.{scan_row, in_state}
use mirrortools.Store.Batch.{match_prefix, state_in}
use mirrortools.Store.Logs.{page}

pub record JobFilter : Type 0 where
  pub states : List State
  pub method : Text
  pub site : Text
  pub prefix : Text
  pub order_by : Text
  pub limit : ℤ
  pub offset : ℤ

some_suffix : (Text → Bool) → Text → Bool
some_suffix p [] = p []
some_suffix p (c ∷ s) = p (c ∷ s) || some_suffix p s

one_more : (ℕ → Bool) → (Text → Bool) → Text → Bool
one_more hit rest [] = false
one_more hit rest (c ∷ s) = hit c && rest s

-- SQL's LIKE: % is any text, _ any character, and letters match in either case.
unfoldable pub like : Text → Text → Bool
unfolding some_suffix one_more
like [] s = s == []
like (c ∷ pattern) s =
    let rest = like pattern in
    if nat_eq c b'%'
    then some_suffix rest s
    else one_more (λ d. nat_eq c b'_' || nat_eq (lower c) (lower d)) rest s

-- The condition on the site.
unfoldable pub site_matches : Text → Text → Bool
unfolding like has_infix trim_right
site_matches wanted site =
    let clean = trim_right (nat_eq slash) wanted in
    if has_infix clean (codes "://")
    then site == clean
    else site == clean
      || site == codes "https://" ++ clean
      || site == codes "http://" ++ clean
      || like (codes "%://" ++ clean) site

-- The WHERE clause; a criterion that is empty is left out.
unfoldable pub row_matches : JobFilter → Row → Bool
unfolding site_matches
row_matches f r =
    state_in f.states r
    && (f.method == [] || r.method == f.method)
    && (f.site == [] || site_matches f.site r.site)

-- ORDER BY site ASC, path ASC, id ASC, or ORDER BY id DESC
unfoldable pub listed_before : JobFilter → Row → Row → Bool
listed_before f =
    if f.order_by == codes "tree"
    then then_by (by_key (λ r. r.site) text_lt)
        (then_by (by_key (λ r. r.path) text_lt) (by_key (λ r. r.id) ltb))
    else descending (by_key (λ r. r.id) ltb)

-- The rows that the query returns.
unfoldable pub listed_rows : JobFilter → List Row → List Row
unfolding row_matches listed_before select sort_by
listed_rows f rows = page f.limit f.offset (sort_by (listed_before f) (select (row_matches f) rows))

module _ (p : Platform) where
  -- The test on the prefix, which is made on the rows that the query returns.
  unfoldable pub prefix_matches : JobFilter → Row → Bool
  unfolding match_prefix trim_slash
  prefix_matches f r =
      f.prefix == [] || match_prefix p r.source r.site f.prefix (trim_slash f.prefix)

  -- ListJobs
  unfoldable pub list_jobs : JobFilter → Exec (List Job)
  unfolding query statement select
  list_jobs f = do
    rows ← statement (query (λ t. listed_rows f t.jobs))
    pure (map (scan_row p) (select (prefix_matches f) rows))

abbrev pub all_states : List State
all_states = queued ∷ running ∷ paused ∷ completed ∷ failed ∷ quarantined ∷ cancelled ∷ []

-- The rows of SELECT state, COUNT(*) … GROUP BY state put into a map that begins with zeros: a
-- state with no row keeps its zero.
unfoldable pub put_counts : List Row → List State → List (State × ℕ) → List (State × ℕ)
unfolding count insert
put_counts rows [] m = m
put_counts rows (s ∷ ss) m =
    let n = count (in_state s) rows in put_counts rows ss (if nat_eq n 0 then m else insert s n m)

-- GetCounts
unfoldable pub get_counts : Exec (List (State × ℕ))
unfolding put_counts query statement
get_counts = statement (query (λ t. put_counts t.jobs all_states (map (λ s. (s, 0)) all_states)))

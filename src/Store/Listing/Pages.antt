-- ===== src/Store/Listing/Pages.antt =====
-- ListJobs: what the query returns, and where the test on the prefix comes too late.
use mirrortools.Store.Listing.Wanted.{
  IsWanted, row_matches-IsWanted, IsWanted-row_matches, IsArranged, InOrder-IsArranged,
}
use mirrortools.Prelude.{
  ◌<◌, ◌≡◌, refl, ◌∙◌, Bool, true, false, ◌&&◌, List, [], ◌∷◌, ◌++◌, ◌==◌, arith, Text, codes,
  text_has_eq, pos, select, count, All, All-select, All-impl, All-sort_by, sort_by, sort_by-InOrder,
  count-sort_by, IsWeakOrder, then_by-IsWeakOrder, descending-IsWeakOrder, by_key-IsWeakOrder,
  ltb-IsWeakOrder, text_lt-IsWeakOrder, by_key, ltb, descending, Bool-cases, inl, inr,
  insert_sorted,
}
use mirrortools.Job.{Platform}
use mirrortools.Store.Tables.{Row, Tables, ok, statement}
use mirrortools.Store.Sql.{query}
use mirrortools.Store.Lifecycle.{sound}
use mirrortools.Store.Listing.{
  JobFilter, row_matches, listed_before, listed_rows, prefix_matches, list_jobs,
}

listed_before-IsWeakOrder : (f : JobFilter) → IsWeakOrder (listed_before f)
unfolding listed_before
listed_before-IsWeakOrder f = elim (Bool-cases (f.order_by == codes "tree")) [
  | inl e ↦ rw e (
      then_by-IsWeakOrder _ _ (by_key-IsWeakOrder (λ (r : Row). r.site) _ text_lt-IsWeakOrder) (
        then_by-IsWeakOrder _ _ (by_key-IsWeakOrder (λ (r : Row). r.path) _ text_lt-IsWeakOrder)
          (by_key-IsWeakOrder (λ (r : Row). r.id) _ ltb-IsWeakOrder)))
  | inr e ↦
      rw e (descending-IsWeakOrder _ (by_key-IsWeakOrder (λ (r : Row). r.id) _ ltb-IsWeakOrder))
]

count-select :
    (p q : Row → Bool) (rows : List Row) → count q (select p rows) ≡ count (λ r. p r && q r) rows
unfolding count select
count-select p q [] = refl
count-select p q (r ∷ rs) = ground (arith, count-select p q rs)

always-All : (rows : List Row) → All (λ r. Unit {0}) rows
always-All [] = tt
always-All (r ∷ rs) = (tt, always-All rs)

-- Without a limit the query returns the rows that the filter asks for, each as often as the table
-- holds it, in the order that is asked for.
pub record IsListing (f : JobFilter) (rows out : List Row) : Type 0 where
  pub arranged : IsArranged f out
  pub wanted : All (IsWanted f) out
  pub complete :
      (q : Row → Bool) → ((r : Row) → q r ≡ true → IsWanted f r) → count q out ≡ count q rows

matching-all :
    (f : JobFilter) (q : Row → Bool) (rows : List Row)
    → ((r : Row) → q r ≡ true → IsWanted f r)
    → count (λ r. row_matches f r && q r) rows ≡ count q rows
unfolding count
matching-all f q [] h = refl
matching-all f q (r ∷ rows) h = elim (Bool-cases (q r)) [
  | inl t ↦ ground (arith, t, IsWanted-row_matches f r (h r t), matching-all f q rows h)
  | inr t ↦ ground (arith, t, matching-all f q rows h)
]

-- Without a limit, the rows that ListJobs reads are those with a state, a method and a site that
-- the filter asks for, where it asks, each as often as the table holds it, by site, path and id
-- for a tree and else by descending id.
pub listed_rows-IsListing :
    (f : JobFilter) (rows : List Row) → f.limit ≡ pos 0 → IsListing f rows (listed_rows f rows)
unfolding listed_rows
listed_rows-IsListing f rows e = rw e (record {
  arranged = InOrder-IsArranged f _ (
      sort_by-InOrder (listed_before f) (listed_before-IsWeakOrder f)
        (select (row_matches f) rows));
  wanted =
      All-impl (λ r. Unit × (row_matches f r ≡ true)) (IsWanted f) _
        (λ r h. row_matches-IsWanted f r h.1)
        (All-sort_by (listed_before f) (λ r. Unit × (row_matches f r ≡ true))
          (select (row_matches f) rows)
          (All-select (row_matches f) (λ r. Unit) rows (always-All rows)));
  complete = λ q h.
      count-sort_by (listed_before f) q (select (row_matches f) rows)
      ∙ count-select (row_matches f) q rows
      ∙ matching-all f q rows h;
})

-- A listing by prefix alone, newest first, of one job.
abbrev pub newest_under : Text → JobFilter
newest_under prefix = record {
  states = [];
  method = [];
  site = [];
  prefix = prefix;
  order_by = [];
  limit = pos 1;
  offset = pos 0;
}

select-all : (p : Row → Bool) (rows : List Row) → ((r : Row) → p r ≡ true) → select p rows ≡ rows
unfolding select
select-all p [] h = refl
select-all p (r ∷ rs) h = ground (arith, h r, select-all p rs h)

abbrev newer : Row → Row → Bool
newer = descending (by_key (λ r. r.id) ltb)

sort_newest :
    (older : List Row) (r : Row)
    → All (λ x. x.id < r.id) older
    → (rest : List Row) × (sort_by newer (older ++ r ∷ []) ≡ r ∷ rest)
unfolding sort_by
sort_newest [] r h = ([], refl)
sort_newest (x ∷ xs) r h =
    let (rest, e) = sort_newest xs r h.1 in (insert_sorted newer x rest, rw e (ground (arith, h.0)))

-- While the driver does not fail: if the newest job, the last one of the table with an id above
-- all others, is not under the prefix, a listing of one job under the prefix, by descending id, is
-- empty, whichever older jobs are under it.
pub list_jobs_prefix_limit :
    (p : Platform) (prefix : Text) (t : Tables) (older : List Row) (newest : Row)
    → t.jobs ≡ older ++ newest ∷ []
    → All (λ r. r.id < newest.id) older
    → prefix_matches p (newest_under prefix) newest ≡ false
    → (list_jobs p (newest_under prefix) (sound t)).0 ≡ ok []
unfolding list_jobs query statement
list_jobs_prefix_limit p prefix t older newest e below miss =
    let f = newest_under prefix in
    let (rest, sorted) = sort_newest older newest below in
    let page_is : listed_rows f t.jobs ≡ newest ∷ [] =
      unfold listed_rows listed_before row_matches in
      rw (e, select-all (row_matches f) (older ++ newest ∷ []) (λ r. refl), sorted) in
    rw (page_is, select) (rw miss)

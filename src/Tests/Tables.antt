-- ===== src/Tests/Tables.antt =====
-- The theorems on logs, settings, listings and any sequence of calls.
use mirrortools.Prelude.{
  ℕ, List, [], ◌∷◌, ◌++◌, ◌≡◌, refl, nat_has_eq, codes, pos, arith, true, length, map, count,
  lookup, some, text_has_eq,
}
use mirrortools.Job.{State, queued, valid, completed, state_has_eq}
use mirrortools.Store.Tables.{ok, Tables, Row}
use mirrortools.Store.Lifecycle.{sound, finishes, deletes}
use mirrortools.Store.Jobs.{in_state}
use mirrortools.Store.Logs.{get_logs, page}
use mirrortools.Store.Logs.Lines.{lines, get_logs-eq-lines}
use mirrortools.Store.Listing.{
  JobFilter, listed_rows, list_jobs, get_counts, all_states, prefix_matches,
}
use mirrortools.Store.Listing.Counts.{total, get_counts-count}
use mirrortools.Store.Listing.Pages.{
  IsListing, newest_under, listed_rows-IsListing, list_jobs_prefix_limit,
}
use mirrortools.Store.Invariant.{IsValid}
use mirrortools.Store.Invariant.Commands.{
  Command, op, claims, fails, logs_line, sets_paused, recovers, batch, commands, commands-IsValid,
}
use mirrortools.Tests.Samples.{plain, row_of, four, four-IsValid, under_a}

abbrev calls : List (ℕ × Command)
calls =
    (7, claims)
    ∷ (8, logs_line 3 [] (codes "x"))
    ∷ (9, fails 3 (codes "timeout"))
    ∷ (10, batch under_a)
    ∷ (11, op (finishes completed [] 11) 2)
    ∷ (12, op deletes 2)
    ∷ (13, sets_paused true)
    ∷ (14, recovers)
    ∷ []

commands-IsValid_example : IsValid (commands plain calls (sound four)).tables
unfolding valid
commands-IsValid_example =
    commands-IsValid plain calls (sound four) (tt, (tt, (tt, (tt, (refl, (tt, (tt, (tt, tt))))))))
      four-IsValid

get_logs-eq-lines_example :
    (get_logs 2 (pos 1) (pos 1) (sound four)).0 ≡ ok (page (pos 1) (pos 1) (lines 2 four))
get_logs-eq-lines_example = get_logs-eq-lines 2 (pos 1) (pos 1) four four-IsValid

get_counts-count_example :
    (m : List (State × ℕ)) × ((get_counts (sound four)).0 ≡ ok m)
    × ((s : State) → valid s ≡ true → lookup s m ≡ some (count (in_state s) four.jobs))
    × (total (map (λ s. count (in_state s) four.jobs) all_states) ≡ length four.jobs)
get_counts-count_example = get_counts-count four four-IsValid

-- What waits on the site a, the newest first.
abbrev waiting : JobFilter
waiting = record {
  states = queued ∷ [];
  method = [];
  site = codes "a";
  prefix = [];
  order_by = [];
  limit = pos 0;
  offset = pos 0;
}

listed_rows-IsListing_example : IsListing waiting four.jobs (listed_rows waiting four.jobs)
listed_rows-IsListing_example = listed_rows-IsListing waiting four.jobs refl

abbrev elsewhere : Row
elsewhere = record (row_of 5 queued (pos 0)) { source = codes "c/d"; site = codes "c" }

abbrev five : Tables
five = record four { jobs = four.jobs ++ elsewhere ∷ [] }

list_jobs_prefix_limit_example : (list_jobs plain (newest_under (codes "a")) (sound five)).0 ≡ ok []
unfolding prefix_matches
list_jobs_prefix_limit_example =
    list_jobs_prefix_limit plain (codes "a") five four.jobs elsewhere refl (ground arith) refl

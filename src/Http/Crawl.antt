-- ===== src/Http/Crawl.antt =====
-- run, resolveStart and Mirror of httpmirror.go: the crawl as a whole.
use mirrortools.Prelude.{
  ℕ, zero, suc, Bool, true, false, ◌&&◌, ◌||◌, not, Option, none, some, List, [], ◌∷◌, ◌++◌, map,
  if◌then◌else◌, ◌==◌, ltb, Text, codes, text_has_eq, insert, lookup,
}
use mirrortools.NetUrl.{Url}
use mirrortools.Http.{
  Crawler, Row, Options, failed, pending, is_pending, is_error, in_scope, enqueue, set_state,
  normalize, is_redirect, dir_of,
}
use mirrortools.Http.Fetch.{World, not_sent, no_answer, response, process}
use mirrortools.Git

-- SELECT ... WHERE state = 'pending' AND id > ? ORDER BY id LIMIT 1
unfoldable pub next_pending : ℕ → List Row → Option Row
next_pending last [] = none
next_pending last (r ∷ rows) =
    let rest = next_pending last rows in
    if is_pending r.state && ltb last r.id then some r else rest

-- How a run ends: with nothing left to do, or by its context.
pub data End : Type 0 where
  finished stopped : End

module _ (w : World) where
  unfoldable pub visit_at : Row → Crawler → Option Url → Bool × Crawler
  unfolding process set_state in_scope
  visit_at r c none = (false, set_state r.id failed 0 (codes "parse") c)
  visit_at r c (some u) =
      if not r.requisite && not (in_scope c.scope u)
      then (false, c)
      else process w r.id u r.requisite c

  -- A round of run, on the row that was selected. `true` is a cancelled context.
  unfoldable pub visit : Row → Crawler → Bool × Crawler
  unfolding visit_at
  visit r c = visit_at r c (w.net.parse r.url)

  abbrev pub stop_or : Option (End × Crawler) → Bool × Crawler → Option (End × Crawler)
  stop_or again (true, c) = some (stopped, c)
  stop_or again (false, c) = again

  abbrev pub on_next :
      (Row → Option (End × Crawler)) → Crawler → Option Row → Option (End × Crawler)
  on_next go c none = some (finished, c)
  on_next go c (some r) = go r

  -- The loop of run; none where the fuel does not suffice.
  unfoldable pub run_from : ℕ → ℕ → Crawler → Option (End × Crawler)
  unfolding visit next_pending
  run_from zero last c = none
  run_from (suc fuel) last c =
      if w.cancelled c.ticks
      then some (stopped, c)
      else on_next (λ r. stop_or (run_from fuel r.id (visit r c).1) (visit r c)) c
          (next_pending last c.rows)

  -- run
  unfoldable pub run : ℕ → Crawler → Option (End × Crawler)
  unfolding run_from
  run fuel c = run_from fuel 0 c

  -- The loop of resolveStart over at most ten requests; none where a request fails.
  unfoldable pub follow : ℕ → Url → Crawler → Option Url × Crawler
  unfolding normalize is_redirect
  follow zero u c = (some u, c)
  follow (suc left) u c =
      let sent = record c { requests = suc c.requests; ticks = suc c.ticks } in
      elim (w.answer c.ticks (record { url = u; if_none_match = []; if_modified_since = [] })) [
        | not_sent e ↦ (none, record c { ticks = suc c.ticks })
        | no_answer e ↦ (none, sent)
        | response resp ↦ elim resp.location [
          | none ↦ (some u, sent)
          | some loc ↦
              if is_redirect resp.code then follow left (normalize loc) sent else (some u, sent)
        ]
      ]

  abbrev start_key : Url → Text
  start_key u = codes "start:" ++ w.net.show u

  -- The end of resolveStart, with what git.ProbeHTTP says of the URL: the URL, and whether it is a
  -- repository.
  resolved : (Text → Bool) → Url → Option Url × Crawler → Option (Url × Bool) × Crawler
  unfolding insert
  resolved probe start (none, c) = (none, c)
  resolved probe start (some u, c) =
      if Git.match_source w.net (w.net.show u) || probe (w.net.show u)
      then (some (u, true), c)
      else (some (u, false), record c { meta = insert (start_key start) (w.net.show u) c.meta })

  -- resolveStart
  unfoldable pub resolve_start : (Text → Bool) → Url → Crawler → Option (Url × Bool) × Crawler
  unfolding resolved follow lookup
  resolve_start probe start c = elim (lookup (start_key start) c.meta) [
    | some known ↦ elim (w.net.parse known) [ none ↦ (none, c) | some u ↦ (some (u, false), c) ]
    | none ↦ resolved probe start (follow 10 start c)
  ]

  -- UPDATE urls SET state = 'pending', of the errors or of all rows.
  unfoldable pub reset : Bool → List Row → List Row
  reset update = map (λ r. if update || is_error r.state then record r { state = pending } else r)

  -- Mirror from the resolved start on.
  unfoldable pub crawl_from : ℕ → Options → Url → Crawler → Option (End × Crawler)
  unfolding reset enqueue run dir_of
  crawl_from fuel opts root c = run fuel (
      enqueue w.net root false (record c {
        scope = record { scheme = root.scheme; host = root.host; path = dir_of root.path };
        rows = reset opts.update c.rows;
      }))

-- What Mirror comes to: the source is refused, handed to package git, or not resolved; the crawl ran.
pub data Mirrored : Type 0 where
  refused unresolved : Mirrored
  use_git : Text → Mirrored
  crawled : Option (End × Crawler) → Mirrored

module _ (w : World) (probe : Text → Bool) where
  started : ℕ → Options → Option (Url × Bool) × Crawler → Mirrored
  unfolding crawl_from
  started fuel opts (none, c) = unresolved
  started fuel opts (some (root, true), c) = use_git (w.net.show root)
  started fuel opts (some (root, false), c) = crawled (crawl_from w fuel opts root c)

  -- Mirror; `has_db` says whether the crawl's database was there.
  unfoldable pub mirror : ℕ → Options → Text → Bool → Crawler → Mirrored
  unfolding started resolve_start normalize
  mirror fuel opts source has_db c = elim (w.net.parse source) [
    | none ↦ refused
    | some u ↦
        if not (u.scheme == codes "http") && not (u.scheme == codes "https") || u.host == []
        then refused
        else if Git.match_source w.net source
        then use_git source
        else if not has_db && probe source
        then use_git source
        else started fuel opts (resolve_start w probe (normalize u) c)
  ]

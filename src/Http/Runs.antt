-- ===== src/Http/Runs.antt =====
-- What each change of the crawler keeps, process and a whole run keep.
use mathlib.Core.Path.{subst}
use mirrortools.Prelude.{
  ℕ, zero, suc, ◌≡◌, refl, Bool, true, false, ◌&&◌, not, nat_has_eq, Option, none, some, Text,
  text_has_eq, if_holds, some_eq, nat_eq,
}
use mirrortools.NetUrl.{Url}
use mirrortools.Http.{Crawler, Row, in_scope, local_path, max_attempts}
use mirrortools.Http.Fetch.{
  World, Request, Answer, not_sent, no_answer, response, FetchError, status_error, local_error,
  transient, answered, fetch_to, fetch, give_up, wait_or, after_fetch, attempts, process, row_of,
  request_for, or_stopped,
}
use mirrortools.Http.Crawl.{
  visit, visit_at, on_next, run_from, run, next_pending, stop_or, End, stopped,
}
use mirrortools.Http.Keeps.{Leads, IsKept, handle-kept, IsKept-Saves, Web}

module _ (w : World) (web : Web) (P : Crawler → Type 0) (k : IsKept w web P) (l : Leads w web) where
  answered-kept :
      (n : ℕ) (req : Request) (a : Answer) (id : ℕ) (requisite : Bool) (local : Text)
      (row : Option Row) (c : Crawler)
      → web.asked req.url
      → w.answer n req ≡ a
      → local_path c.dest_dir req.url ≡ some local
      → P c
      → P (answered w id req.url requisite local row a c).1
  unfolding answered
  answered-kept n req (not_sent m) id requisite local row c here from e h = h
  answered-kept n req (no_answer m) id requisite local row c here from e h = k.requested c h
  answered-kept n req (response resp) id requisite local row c here from e h =
      handle-kept w web P (IsKept-Saves w web P k) l n req resp here from id requisite local row _ e
        (k.requested c h)

  fetch_to-kept :
      (id : ℕ) (u : Url) (requisite : Bool) (o : Option Text) (c : Crawler)
      → web.asked u
      → local_path c.dest_dir u ≡ o
      → P c
      → P (fetch_to w id u requisite o c).1
  unfolding fetch_to request_for
  fetch_to-kept id u requisite none c a e h = k.ticked c h
  fetch_to-kept id u requisite (some local) c a e h =
      answered-kept c.ticks (request_for w u local (row_of id c.rows) c) _ id requisite local
        (row_of id c.rows) _ a refl e (k.ticked c h)

  pub fetch-kept :
      (id : ℕ) (u : Url) (requisite : Bool) (c : Crawler)
      → web.asked u
      → P c
      → P (fetch w id u requisite c).1
  unfolding fetch
  fetch-kept id u requisite c a h =
      fetch_to-kept id u requisite (local_path c.dest_dir u) c a refl h

  give_up-kept :
      (id : ℕ) (e : FetchError) (last : Bool) (c given : Crawler)
      → give_up w id e last c ≡ some given
      → P c
      → P given
  unfolding give_up
  give_up-kept id (status_error code) last c given e h =
      subst P (some_eq e) (k.stated _ _ _ _ _ refl h)
  give_up-kept id (local_error m) last c given e h =
      subst P (some_eq e) (k.stated _ _ _ _ _ refl (k.counted c h))
  give_up-kept id (transient m) true c given e h =
      subst P (some_eq e) (k.stated _ _ _ _ _ refl (k.counted c h))
  give_up-kept id (transient m) false c given e h = cc

  -- What the loop of process keeps, if it returns.
  abbrev Kept : Option (Bool × Crawler) → Type 0
  Kept none = Unit
  Kept (some x) = P x.1

  wait_or-Kept :
      (again : Option (Bool × Crawler)) (c : Crawler) (o : Option Crawler)
      → Kept again
      → P c
      → ((given : Crawler) → o ≡ some given → P given)
      → Kept (wait_or w again c o)
  unfolding wait_or
  wait_or-Kept again c none h j g =
      if_holds Kept (w.interrupted c.ticks) (some (true, c)) again (λ _. j) (λ _. h)
  wait_or-Kept again c (some given) h j g = g given refl

  after_fetch-Kept :
      (id : ℕ) (last : Bool) (again : Option (Bool × Crawler)) (x : Option FetchError × Crawler)
      → Kept again
      → P x.1
      → Kept (after_fetch w id last again x)
  unfolding after_fetch
  after_fetch-Kept id last again (none, c) h j = j
  after_fetch-Kept id last again (some e, c) h j =
      if_holds Kept (w.cancelled c.ticks) (some (true, c)) _ (λ _. j)
        (λ _.
          wait_or-Kept again c (give_up w id e last c) h j
            (λ given g. give_up-kept id e last c given g j))

  attempts-Kept :
      (fuel attempt id : ℕ) (u : Url) (requisite : Bool) (c : Crawler)
      → web.asked u
      → P c
      → Kept (attempts w fuel attempt id u requisite c)
  unfolding attempts
  attempts-Kept zero attempt id u requisite c a h = tt
  attempts-Kept (suc fuel) attempt id u requisite c a h =
      let tried = fetch-kept id u requisite c a h in
      after_fetch-Kept id (nat_eq attempt max_attempts) _ (fetch w id u requisite c)
        (attempts-Kept fuel (suc attempt) id u requisite (fetch w id u requisite c).1 a tried) tried

  or_stopped-kept :
      (c : Crawler) (o : Option (Bool × Crawler)) → P c → Kept o → P (or_stopped w c o).1
  unfolding or_stopped
  or_stopped-kept c none h j = h
  or_stopped-kept c (some x) h j = j

  process-kept :
      (id : ℕ) (u : Url) (requisite : Bool) (c : Crawler)
      → web.asked u
      → P c
      → P (process w id u requisite c).1
  unfolding process
  process-kept id u requisite c a h =
      or_stopped-kept c (attempts w max_attempts 1 id u requisite c) h
        (attempts-Kept max_attempts 1 id u requisite c a h)

  visit_at-kept :
      (r : Row) (c : Crawler) (o : Option Url)
      → ((u : Url) → o ≡ some u → web.asked u)
      → P c
      → P (visit_at w r c o).1
  unfolding visit_at
  visit_at-kept r c none a h = k.stated _ _ _ _ _ refl h
  visit_at-kept r c (some u) a h =
      if_holds (λ (x : Bool × Crawler). P x.1) (not r.requisite && not (in_scope c.scope u))
        (false, c) _ (λ _. h) (λ _. process-kept r.id u r.requisite c (a u refl) h)

  pub visit-kept :
      (r : Row) (c : Crawler)
      → ((u : Url) → w.net.parse r.url ≡ some u → web.asked u)
      → P c
      → P (visit w r c).1
  unfolding visit
  visit-kept r c a h = visit_at-kept r c (w.net.parse r.url) a h

  -- What a run keeps, however it ends.
  abbrev Ends : Option (End × Crawler) → Type 0
  Ends none = Unit
  Ends (some (e, c)) = P c

  stop_or-kept :
      (again : Option (End × Crawler)) (x : Bool × Crawler)
      → Ends again
      → P x.1
      → Ends (stop_or w again x)
  stop_or-kept again (true, c) h j = j
  stop_or-kept again (false, c) h j = h

  on_next-kept :
      (go : Row → Option (End × Crawler)) (c : Crawler) (o : Option Row)
      → P c
      → ((r : Row) → Ends (go r))
      → Ends (on_next w go c o)
  on_next-kept go c none h g = h
  on_next-kept go c (some r) h g = g r

  run_from-kept :
      (fuel last : ℕ) (c : Crawler)
      → ((u : Url) → web.asked u)
      → P c
      → Ends (run_from w fuel last c)
  unfolding run_from
  run_from-kept zero last c a h = tt
  run_from-kept (suc fuel) last c a h =
      if_holds Ends (w.cancelled c.ticks) (some (stopped, c)) _ (λ _. h)
        (λ _. on_next-kept _ c (next_pending last c.rows) h (λ r.
          let visited = visit-kept r c (λ u _. a u) h in
          stop_or-kept _ (visit w r c) (run_from-kept fuel r.id (visit w r c).1 a visited) visited))

  -- What every change keeps, a run keeps, whichever URLs are asked for.
  pub run-kept :
      (fuel : ℕ) (c after : Crawler) (e : End)
      → ((u : Url) → web.asked u)
      → run w fuel c ≡ some (e, after)
      → P c
      → P after
  unfolding run
  run-kept fuel c after e a eq h = subst Ends eq (run_from-kept fuel 0 c a h)

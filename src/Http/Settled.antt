-- ===== src/Http/Settled.antt =====
-- What becomes of the row that process is called for: it is no longer pending, unless the context
-- was cancelled.

use mirrortools.Prelude.{
  ℕ, zero, suc, ◌/◌, ◌≡◌, refl, Bool, true, false, ◌||◌, List, [], ◌∷◌, ◌==◌, nat_eq, nat_has_eq,
  leb, Option, none, some, arith, Text, text_has_eq, insert, All, if_holds,
}
use mirrortools.NetUrl.{Url}
use mirrortools.Http.{
  Crawler, Row, local_path, enqueue, mark_done, set_state, is_redirect, is_pending, update_row,
  normalize, max_attempts,
}
use mirrortools.Http.DirListing.{Extracted}
use mirrortools.Http.Fetch.{
  World, Response, Answer, not_sent, no_answer, response, Disk, saved, mkdir_failed, create_failed,
  copy_failed, close_failed, rename_failed, FetchError, status_error, local_error, transient,
  renamed, keep, save, redirect, handle, answered, fetch_to, fetch, give_up, wait_or, after_fetch,
  attempts, process, row_of, extracted, request_for, known_etag, known_modified, enqueue_all,
  enqueue_entries, or_stopped, with_temp,
}

-- The row with the id is no longer pending.
abbrev pub IsDone : ℕ → Crawler → Type 0
IsDone id c = All (λ r. r.id ≡ id → is_pending r.state ≡ false) c.rows

pub update_row-IsDone :
    (id : ℕ) (f : Row → Row) (rows : List Row)
    → ((r : Row) → is_pending (f r).state ≡ false)
    → All (λ r. r.id ≡ id → is_pending r.state ≡ false) (update_row id f rows)
unfolding update_row
update_row-IsDone id f [] h = tt
update_row-IsDone id f (r ∷ rows) h = (
  if_holds (λ (x : Row). x.id ≡ id → is_pending x.state ≡ false) (r.id == id) (f r) r (λ _ _. h r)
      (λ e z. ground (arith, e, z)),
  update_row-IsDone id f rows h,
)

mark_done-IsDone :
    (id status : ℕ) (etag modified : Text) (c : Crawler)
    → IsDone id (mark_done id status etag modified c)
unfolding mark_done
mark_done-IsDone id status etag modified c = update_row-IsDone id _ c.rows (λ r. refl)

-- A fetch without an error has marked the row.
abbrev Fetched : ℕ → Option FetchError × Crawler → Type 0
Fetched id (none, c) = IsDone id c
Fetched id (some e, c) = Unit

module _ (w : World) where
  renamed-Fetched :
      (id : ℕ) (resp : Response) (local : Text) (page : Extracted) (rename : Option Text)
      (c : Crawler)
      → Fetched id (renamed w id resp local page rename c)
  unfolding renamed
  renamed-Fetched id resp local page (some e) c = tt
  renamed-Fetched id resp local page none c =
      mark_done-IsDone id resp.code resp.etag resp.last_modified (
        enqueue_all w page.requisites true
          (enqueue_all w page.links false (record c { files = insert local resp.body c.files })))

  keep-Fetched :
      (id : ℕ) (resp : Response) (local : Text) (page : Extracted) (rename : Option Text)
      (c : Crawler)
      → Fetched id (keep w id resp local page rename c)
  unfolding keep
  keep-Fetched id resp local page rename c =
      if_holds (Fetched id) page.listing _ _
        (λ _. mark_done-IsDone id resp.code [] [] (enqueue_entries w page.links c))
        (λ _. renamed-Fetched id resp local page rename c)

  save-Fetched :
      (id : ℕ) (u : Url) (resp : Response) (local : Text) (disk : Disk) (c : Crawler)
      → Fetched id (save w id u resp local disk c)
  unfolding save
  save-Fetched id u resp local saved c =
      keep-Fetched id resp local (extracted w c u resp) none (with_temp w local c)
  save-Fetched id u resp local (rename_failed m) c =
      keep-Fetched id resp local (extracted w c u resp) (some m) (with_temp w local c)
  save-Fetched id u resp local (mkdir_failed m) c = tt
  save-Fetched id u resp local (create_failed m) c = tt
  save-Fetched id u resp local (copy_failed m) c = tt
  save-Fetched id u resp local (close_failed m) c = tt

  redirect-Fetched :
      (id code : ℕ) (requisite : Bool) (loc : Option Url) (c : Crawler)
      → Fetched id (redirect w id code requisite loc c)
  unfolding redirect
  redirect-Fetched id code requisite none c = tt
  redirect-Fetched id code requisite (some loc) c =
      mark_done-IsDone id code [] [] (enqueue w.net (normalize loc) requisite c)

  handle-Fetched :
      (id : ℕ) (u : Url) (requisite : Bool) (local : Text) (row : Option Row) (resp : Response)
      (c : Crawler)
      → Fetched id (handle w id u requisite local row resp c)
  unfolding handle
  handle-Fetched id u requisite local row resp c =
      if_holds (Fetched id) (nat_eq resp.code 304) _ _
        (λ _. mark_done-IsDone id resp.code (known_etag row) (known_modified row) c)
        (λ _.
          if_holds (Fetched id) (is_redirect resp.code) _ _
            (λ _. redirect-Fetched id resp.code requisite resp.location c)
            (λ _.
              if_holds (Fetched id) (nat_eq (resp.code / 100) 2) _ _
                (λ _. save-Fetched id u resp local resp.disk c)
                (λ _.
                  if_holds (Fetched id)
                    (nat_eq resp.code 408 || nat_eq resp.code 429 || leb 500 resp.code) _ _
                    (λ _. tt) (λ _. tt))))

  answered-Fetched :
      (id : ℕ) (u : Url) (requisite : Bool) (local : Text) (row : Option Row) (a : Answer)
      (c : Crawler)
      → Fetched id (answered w id u requisite local row a c)
  unfolding answered
  answered-Fetched id u requisite local row (not_sent m) c = tt
  answered-Fetched id u requisite local row (no_answer m) c = tt
  answered-Fetched id u requisite local row (response resp) c =
      handle-Fetched id u requisite local row resp (record c { requests = suc c.requests })

  fetch_to-Fetched :
      (id : ℕ) (u : Url) (requisite : Bool) (o : Option Text) (c : Crawler)
      → Fetched id (fetch_to w id u requisite o c)
  unfolding fetch_to
  fetch_to-Fetched id u requisite none c = tt
  fetch_to-Fetched id u requisite (some local) c =
      answered-Fetched id u requisite local (row_of id c.rows)
        (w.answer c.ticks (request_for w u local (row_of id c.rows) c))
        (record c { ticks = suc c.ticks })

  fetch-Fetched :
      (id : ℕ) (u : Url) (requisite : Bool) (c : Crawler) → Fetched id (fetch w id u requisite c)
  unfolding fetch
  fetch-Fetched id u requisite c = fetch_to-Fetched id u requisite (local_path c.dest_dir u) c

  abbrev GivenUp : ℕ → Option Crawler → Type 0
  GivenUp id none = Unit
  GivenUp id (some c) = IsDone id c

  give_up-GivenUp :
      (id : ℕ) (e : FetchError) (last : Bool) (c : Crawler) → GivenUp id (give_up w id e last c)
  unfolding give_up set_state
  give_up-GivenUp id (status_error code) last c = update_row-IsDone id _ c.rows (λ r. refl)
  give_up-GivenUp id (local_error m) last c = update_row-IsDone id _ c.rows (λ r. refl)
  give_up-GivenUp id (transient m) true c = update_row-IsDone id _ c.rows (λ r. refl)
  give_up-GivenUp id (transient m) false c = tt

  -- What process leaves, unless the context was cancelled.
  abbrev pub Processed : ℕ → Bool × Crawler → Type 0
  Processed id (true, c) = Unit
  Processed id (false, c) = IsDone id c

  -- What the loop of process leaves, if it returns.
  abbrev Leaves : ℕ → Option (Bool × Crawler) → Type 0
  Leaves id none = Unit
  Leaves id (some x) = Processed id x

  wait_or-Leaves :
      (id : ℕ) (again : Option (Bool × Crawler)) (c : Crawler) (o : Option Crawler)
      → GivenUp id o
      → Leaves id again
      → Leaves id (wait_or w again c o)
  unfolding wait_or
  wait_or-Leaves id again c none g h =
      if_holds (Leaves id) (w.interrupted c.ticks) (some (true, c)) again (λ _. tt) (λ _. h)
  wait_or-Leaves id again c (some given) g h = g

  after_fetch-Leaves :
      (id : ℕ) (last : Bool) (again : Option (Bool × Crawler)) (x : Option FetchError × Crawler)
      → Fetched id x
      → Leaves id again
      → Leaves id (after_fetch w id last again x)
  unfolding after_fetch
  after_fetch-Leaves id last again (none, c) f h = f
  after_fetch-Leaves id last again (some e, c) f h =
      if_holds (Leaves id) (w.cancelled c.ticks) (some (true, c)) _ (λ _. tt)
        (λ _. wait_or-Leaves id again c (give_up w id e last c) (give_up-GivenUp id e last c) h)

  attempts-Leaves :
      (fuel attempt id : ℕ) (u : Url) (requisite : Bool) (c : Crawler)
      → Leaves id (attempts w fuel attempt id u requisite c)
  unfolding attempts
  attempts-Leaves zero attempt id u requisite c = tt
  attempts-Leaves (suc fuel) attempt id u requisite c =
      after_fetch-Leaves id (nat_eq attempt max_attempts) _ (fetch w id u requisite c)
        (fetch-Fetched id u requisite c)
        (attempts-Leaves fuel (suc attempt) id u requisite (fetch w id u requisite c).1)

  or_stopped-Processed :
      (id : ℕ) (c : Crawler) (o : Option (Bool × Crawler))
      → Leaves id o
      → Processed id (or_stopped w c o)
  unfolding or_stopped
  or_stopped-Processed id c none h = tt
  or_stopped-Processed id c (some x) h = h

  pub process-Processed :
      (id : ℕ) (u : Url) (requisite : Bool) (c : Crawler)
      → Processed id (process w id u requisite c)
  unfolding process
  process-Processed id u requisite c =
      or_stopped-Processed id c (attempts w max_attempts 1 id u requisite c)
        (attempts-Leaves max_attempts 1 id u requisite c)

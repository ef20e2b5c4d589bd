-- ===== src/Http/Fetch.antt =====
-- fetch, save and process of httpmirror.go: one URL is fetched, saved and read for links.
use mirrortools.Prelude.{
  ℕ, zero, suc, ◌/◌, Bool, true, false, ◌&&◌, ◌||◌, not, Option, none, some, List, [], ◌∷◌,
  if◌then◌else◌, ◌==◌, nat_eq, nat_has_eq, leb, Text, codes, text_has_eq, insert, ◌++◌,
}
use mirrortools.NetUrl.{Url, NetUrl}
use mirrortools.Http.{
  Crawler, Row, error, failed, in_scope, local_path, enqueue, mark_done, set_state, normalize,
  is_redirect, max_attempts, tmp_suffix,
}
use mirrortools.Http.Html.{Node}
use mirrortools.Http.Css.{extract_css}
use mirrortools.Http.DirListing.{Extracted, extract_html}

-- statusError, localError, and any other error, which is tried again.
pub data FetchError : Type 0 where
  status_error : ℕ → FetchError
  local_error : Text → FetchError
  transient : Text → FetchError

-- What becomes of the file while a response is saved.
pub data Disk : Type 0 where
  saved : Disk
  mkdir_failed create_failed copy_failed close_failed rename_failed : Text → Disk

-- resp.Location and the parsed Content-Type are what net/http and mime make of the headers.
pub record Response : Type 0 where
  pub code : ℕ
  pub location : Option Url
  pub media_type : Text
  pub etag : Text
  pub last_modified : Text
  pub body : Text
  pub disk : Disk

pub data Answer : Type 0 where
  not_sent no_answer : Text → Answer
  response : Response → Answer

pub record Request : Type 0 where
  pub url : Url
  pub if_none_match : Text
  pub if_modified_since : Text

-- The world at each attempt: what is answered to a request, whether the context is cancelled after
-- it or in the wait that follows, and whether a path is a regular file; and the tree of an HTML
-- page.
pub record World : Type 0 where
  pub net : NetUrl
  pub answer : ℕ → Request → Answer
  pub cancelled : ℕ → Bool
  pub interrupted : ℕ → Bool
  pub is_file : ℕ → Text → Bool
  pub parse_html : Text → Option Node

-- SELECT ... WHERE id = ?
unfoldable pub row_of : ℕ → List Row → Option Row
row_of id [] = none
row_of id (r ∷ rows) = let rest = row_of id rows in if r.id == id then some r else rest

abbrev pub text_or_empty : Option Text → Text
text_or_empty none = []
text_or_empty (some s) = s

abbrev pub known_etag : Option Row → Text
known_etag none = []
known_etag (some r) = text_or_empty r.etag

abbrev pub known_modified : Option Row → Text
known_modified none = []
known_modified (some r) = text_or_empty r.last_modified

unfoldable pub is_html_type : Text → Bool
is_html_type mt = mt == codes "text/html" || mt == codes "application/xhtml+xml"

module _ (w : World) where
  -- The loops of save over the links and the requisites.
  unfoldable pub enqueue_all : List Url → Bool → Crawler → Crawler
  enqueue_all [] requisite c = c
  enqueue_all (u ∷ urls) requisite c = enqueue_all urls requisite (enqueue w.net u requisite c)

  -- The entries of a listing: links with a query are left out.
  unfoldable pub enqueue_entries : List Url → Crawler → Crawler
  enqueue_entries [] c = c
  enqueue_entries (u ∷ urls) c =
      enqueue_entries urls (if not (u.raw_query == []) then c else enqueue w.net u false c)

  -- What is read of the page that was saved.
  unfoldable pub extracted : Crawler → Url → Response → Extracted
  unfolding is_html_type
  extracted c u resp =
      if is_html_type resp.media_type && in_scope c.scope u
      then extract_html w.net (w.parse_html resp.body) u
      else if resp.media_type == codes "text/css"
      then record { links = []; requisites = extract_css w.net resp.body u; listing = false }
      else record { links = []; requisites = []; listing = false }

  -- save after the rename.
  unfoldable pub renamed :
      ℕ → Response → Text → Extracted → Option Text → Crawler → Option FetchError × Crawler
  unfolding enqueue_all mark_done insert
  renamed id resp local page (some e) c = (some (local_error e), c)
  renamed id resp local page none c = (
    none,
    mark_done id resp.code resp.etag resp.last_modified (
        enqueue_all page.requisites true
          (enqueue_all page.links false (record c { files = insert local resp.body c.files }))),
  )

  -- save after the file is complete under its temporary name.
  unfoldable pub keep :
      ℕ → Response → Text → Extracted → Option Text → Crawler → Option FetchError × Crawler
  unfolding renamed enqueue_entries mark_done
  keep id resp local page rename c =
      if page.listing
      then (none, mark_done id resp.code [] [] (enqueue_entries page.links c))
      else renamed id resp local page rename c

  -- os.Create(local + tmpSuffix)
  abbrev pub with_temp : Text → Crawler → Crawler
  with_temp local c = record c { temps = (local ++ tmp_suffix) ∷ c.temps }

  -- save
  unfoldable pub save : ℕ → Url → Response → Text → Disk → Crawler → Option FetchError × Crawler
  unfolding keep extracted
  save id u resp local saved c = keep id resp local (extracted c u resp) none (with_temp local c)
  save id u resp local (rename_failed e) c =
      keep id resp local (extracted c u resp) (some e) (with_temp local c)
  save id u resp local (mkdir_failed e) c = (some (local_error e), c)
  save id u resp local (create_failed e) c = (some (local_error e), c)
  save id u resp local (copy_failed e) c = (some (transient e), with_temp local c)
  save id u resp local (close_failed e) c = (some (local_error e), with_temp local c)

  unfoldable pub redirect : ℕ → ℕ → Bool → Option Url → Crawler → Option FetchError × Crawler
  unfolding enqueue mark_done normalize
  redirect id code requisite none c = (some (status_error code), c)
  redirect id code requisite (some loc) c =
      (none, mark_done id code [] [] (enqueue w.net (normalize loc) requisite c))

  -- fetch from the response on, with the row's ETag and date.
  unfoldable pub handle :
      ℕ → Url → Bool → Text → Option Row → Response → Crawler → Option FetchError × Crawler
  unfolding redirect save mark_done is_redirect
  handle id u requisite local row resp c =
      if nat_eq resp.code 304
      then (none, mark_done id resp.code (known_etag row) (known_modified row) c)
      else if is_redirect resp.code
      then redirect id resp.code requisite resp.location c
      else if nat_eq (resp.code / 100) 2
      then save id u resp local resp.disk c
      else if nat_eq resp.code 408 || nat_eq resp.code 429 || leb 500 resp.code
      then (some (transient (codes "http")), c)
      else (some (status_error resp.code), c)

  -- client.Do
  unfoldable pub answered :
      ℕ → Url → Bool → Text → Option Row → Answer → Crawler → Option FetchError × Crawler
  unfolding handle
  answered id u requisite local row (not_sent e) c = (some (transient e), c)
  answered id u requisite local row (no_answer e) c =
      (some (transient e), record c { requests = suc c.requests })
  answered id u requisite local row (response resp) c =
      handle id u requisite local row resp (record c { requests = suc c.requests })

  unfoldable pub request_for : Url → Text → Option Row → Crawler → Request
  request_for u local row c =
      let there = w.is_file c.ticks local in
      record {
        url = u;
        if_none_match = if there then known_etag row else [];
        if_modified_since = if there then known_modified row else [];
      }

  unfoldable pub fetch_to : ℕ → Url → Bool → Option Text → Crawler → Option FetchError × Crawler
  unfolding answered request_for row_of
  fetch_to id u requisite none c =
      (some (local_error (codes "unusable path")), record c { ticks = suc c.ticks })
  fetch_to id u requisite (some local) c =
      let row = row_of id c.rows in
      answered id u requisite local row (w.answer c.ticks (request_for u local row c))
        (record c { ticks = suc c.ticks })

  -- fetch
  unfoldable pub fetch : ℕ → Url → Bool → Crawler → Option FetchError × Crawler
  unfolding fetch_to local_path
  fetch id u requisite c = fetch_to id u requisite (local_path c.dest_dir u) c

  -- What process records of an error that it does not try again; none where it does.
  unfoldable pub give_up : ℕ → FetchError → Bool → Crawler → Option Crawler
  unfolding set_state
  give_up id (status_error code) last c = some (set_state id failed code (codes "http") c)
  give_up id (local_error e) last c =
      some (set_state id error 0 e (record c { errors = suc c.errors }))
  give_up id (transient e) true c =
      some (set_state id error 0 e (record c { errors = suc c.errors }))
  give_up id (transient e) false c = none

  -- The end of a round of process: what was recorded, or the wait before the rounds that follow.
  unfoldable pub wait_or :
      Option (Bool × Crawler) → Crawler → Option Crawler → Option (Bool × Crawler)
  wait_or again c (some given) = some (false, given)
  wait_or again c none = if w.interrupted c.ticks then some (true, c) else again

  -- One round of process, with the rounds that would follow. `true` is a cancelled context.
  unfoldable pub after_fetch :
      ℕ → Bool → Option (Bool × Crawler) → Option FetchError × Crawler → Option (Bool × Crawler)
  unfolding wait_or give_up
  after_fetch id last again (none, c) = some (false, c)
  after_fetch id last again (some e, c) =
      if w.cancelled c.ticks then some (true, c) else wait_or again c (give_up id e last c)

  -- The loop of process from an attempt on; none where the fuel does not suffice.
  unfoldable pub attempts : ℕ → ℕ → ℕ → Url → Bool → Crawler → Option (Bool × Crawler)
  unfolding after_fetch fetch
  attempts zero attempt id u requisite c = none
  attempts (suc fuel) attempt id u requisite c =
      let tried = fetch id u requisite c in
      after_fetch id (nat_eq attempt max_attempts)
        (attempts fuel (suc attempt) id u requisite tried.1) tried

  -- What the loop returns; it returns something, since its fuel suffices.
  unfoldable pub or_stopped : Crawler → Option (Bool × Crawler) → Bool × Crawler
  or_stopped c none = (true, c)
  or_stopped c (some x) = x

  -- process
  unfoldable pub process : ℕ → Url → Bool → Crawler → Bool × Crawler
  unfolding attempts or_stopped
  process id u requisite c = or_stopped c (attempts max_attempts 1 id u requisite c)

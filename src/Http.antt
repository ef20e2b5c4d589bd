-- ===== src/Http.antt =====
-- httpmirror/httpmirror.go: the crawl of a directory of a web server. This file has the URLs, their
-- scope and their local paths, and the table of the URLs in the crawl's database, whose statements
-- succeed here.
pub mod Paths
pub mod Css
pub mod Html
pub mod DirListing
pub mod Fetch
pub mod Crawl
pub mod Keeps
pub mod Runs
pub mod Safety
pub mod Rows
pub mod Termination
pub mod Settled
pub mod Finish
pub mod Complete
pub mod Attempts
use mirrortools.Prelude.{
  ℕ, ◌+◌, Bool, true, false, ◌&&◌, ◌||◌, not, Option, none, some, List, [], ◌∷◌, ◌++◌,
  if◌then◌else◌, ◌==◌, nat_eq, nat_has_eq, Text, codes, text_has_eq, to_lower, has_prefix,
  has_suffix, cut_last, replace_byte, contains, trim_space, slash,
}
use mirrortools.FilePaths.{clean, join, dot, dot_dot}
use mirrortools.NetUrl.{Url, NetUrl}

pub data UrlState : Type 0 where
  pending done error failed : UrlState

abbrev pub is_pending : UrlState → Bool
is_pending pending = true
is_pending _ = false

abbrev pub is_error : UrlState → Bool
is_error error = true
is_error _ = false

-- A row of the table urls; a NULL status is 0, and a NULL text is none.
pub record Row : Type 0 where
  pub id : ℕ
  pub url : Text
  pub requisite : Bool
  pub state : UrlState
  pub status : ℕ
  pub message : Option Text
  pub etag : Option Text
  pub last_modified : Option Text

-- The scheme, the host and the directory that links must stay within.
pub record Scope : Type 0 where
  pub scheme : Text
  pub host : Text
  pub path : Text

pub record Options : Type 0 where
  pub update : Bool
  pub wait : ℕ

-- The crawler with its database, whose rows stand in the order of their ids, the files that it has
-- written, by their paths, and the paths of the temporary files that it has created, which it has
-- renamed or removed since. `ticks` counts the attempts, for the answers of the network.
pub record Crawler : Type 0 where
  pub rows : List Row
  pub meta : List (Text × Text)
  pub dest_dir : Text
  pub scope : Scope
  pub requests : ℕ
  pub errors : ℕ
  pub files : List (Text × Text)
  pub temps : List Text
  pub ticks : ℕ

abbrev pub tmp_suffix : Text
tmp_suffix = codes ".httpmirror-tmp"

abbrev pub max_attempts : ℕ
max_attempts = 3

-- The host without the port that the scheme implies.
unfoldable pub without_port : Text → Text → Text
unfolding has_suffix cut_last
without_port scheme host =
    if (scheme == codes "http" && has_suffix host (codes ":80"))
      || (scheme == codes "https" && has_suffix host (codes ":443"))
    then elim (cut_last b':' host) [ none ↦ host | some parts ↦ parts.0 ]
    else host

-- normalize
unfoldable pub normalize : Url → Url
unfolding without_port to_lower
normalize u =
    let scheme = to_lower u.scheme in
    record u {
      scheme = scheme;
      user = none;
      host = without_port scheme (to_lower u.host);
      path = if u.path == [] then slash ∷ [] else u.path;
      raw_path = if u.path == [] then [] else u.raw_path;
      fragment = [];
      raw_fragment = [];
    }

is_web : Url → Bool
is_web u = (u.scheme == codes "http" || u.scheme == codes "https") && not (u.host == [])

-- resolve, after base.Parse.
web_url : Option Url → Option Url
unfolding is_web normalize
web_url none = none
web_url (some u) = if is_web u then some (normalize u) else none

-- resolve
unfoldable pub resolve : NetUrl → Url → Text → Option Url
unfolding web_url trim_space has_prefix
resolve net base ref =
    let trimmed = trim_space ref in
    if trimmed == [] || has_prefix trimmed (codes "#")
    then none
    else web_url (net.refer base trimmed)

-- isRedirect
unfoldable pub is_redirect : ℕ → Bool
is_redirect code =
    nat_eq code 301 || nat_eq code 302 || nat_eq code 303 || nat_eq code 307 || nat_eq code 308

-- inScope
unfoldable pub in_scope : Scope → Url → Bool
unfolding has_prefix
in_scope scope u = u.scheme == scope.scheme && u.host == scope.host && has_prefix u.path scope.path

unfoldable pub unusable_host : Text → Bool
unfolding contains
unusable_host host =
    host == [] || host == dot || host == dot_dot || contains host slash || contains host b'\\'

-- The file's path below the host, before it is cleaned.
unfoldable pub file_path : Url → Text
unfolding has_suffix replace_byte
file_path u =
    let p =
      (if u.path == [] || has_suffix u.path (slash ∷ [])
        then u.path ++ codes "index.html"
        else u.path) in
    if not (u.raw_query == [])
    then p ++ (codes "?" ++ replace_byte slash (codes "%2F") u.raw_query)
    else p

-- crawler.localPath; none is an error.
unfoldable pub local_path : Text → Url → Option Text
unfolding unusable_host file_path
local_path dest_dir u =
    let p = clean (slash ∷ file_path u) in
    if unusable_host u.host
    then none
    else if has_suffix p tmp_suffix
    then none
    else some (join (dest_dir ∷ u.host ∷ p ∷ []))

-- dirOf
unfoldable pub dir_of : Text → Text
unfolding cut_last
dir_of p = elim (cut_last slash p) [ none ↦ slash ∷ [] | some parts ↦ parts.0 ++ (slash ∷ []) ]

abbrev pub fresh_row : ℕ → Text → Bool → Row
fresh_row id url requisite = record {
  id = id;
  url = url;
  requisite = requisite;
  state = pending;
  status = 0;
  message = none;
  etag = none;
  last_modified = none;
}

-- INSERT INTO urls ... ON CONFLICT(url) DO UPDATE SET requisite = MIN(requisite, excluded.requisite);
-- a new row's id is one above the last row's, which stands above `last`.
unfoldable pub upsert : ℕ → Text → Bool → List Row → List Row
upsert last url requisite [] = fresh_row (last + 1) url requisite ∷ []
upsert last url requisite (r ∷ rows) =
    let later = r ∷ upsert r.id url requisite rows in
    if r.url == url then record r { requisite = r.requisite && requisite } ∷ rows else later

-- crawler.enqueue
unfoldable pub enqueue : NetUrl → Url → Bool → Crawler → Crawler
unfolding upsert in_scope
enqueue net u requisite c =
    if not requisite && not (in_scope c.scope u)
    then c
    else record c { rows = upsert 0 (net.show u) requisite c.rows }

-- UPDATE urls ... WHERE id = ?
unfoldable pub update_row : ℕ → (Row → Row) → List Row → List Row
update_row id f [] = []
update_row id f (r ∷ rows) = (if r.id == id then f r else r) ∷ update_row id f rows

-- crawler.markDone
unfoldable pub mark_done : ℕ → ℕ → Text → Text → Crawler → Crawler
unfolding update_row
mark_done id status etag last_modified c = record c {
  rows =
      update_row id
        (λ r. record r {
          state = done;
          status = status;
          message = none;
          etag = some etag;
          last_modified = some last_modified;
        })
        c.rows;
}

-- crawler.setState
unfoldable pub set_state : ℕ → UrlState → ℕ → Text → Crawler → Crawler
unfolding update_row
set_state id state status message c = record c {
  rows =
      update_row id (λ r. record r { state = state; status = status; message = some message })
        c.rows;
}

-- ===== src/Git.antt =====
-- git/git.go: which sources are Git repositories, and where a clone of one is kept. The commands of
-- git and the probe of a server are not modelled.
pub mod Ending
pub mod Paths
pub mod Contained
use mirrortools.Prelude.{
  ℕ, suc, Bool, true, false, ◌&&◌, ◌||◌, not, Option, none, some, List, [], ◌∷◌, ◌++◌,
  if◌then◌else◌, ◌==◌, nat_eq, nat_has_eq, leb, length, Text, codes, text_has_eq, to_lower,
  has_prefix, has_suffix, has_infix, trim_prefix, trim_suffix, trim_right, drop_while, cut_first,
  cut_last, contains, split, slash,
}
use mirrortools.FilePaths.{clean, join, dot, dot_dot}
use mirrortools.NetUrl.{Url, NetUrl}

abbrev pub tmp_suffix : Text
tmp_suffix = codes ".gitmirror-tmp"

abbrev reserved_forge_roots : List Text
reserved_forge_roots =
    codes "-"
    ∷ codes "about"
    ∷ codes "abuse_reports"
    ∷ codes "account"
    ∷ codes "admin"
    ∷ codes "apps"
    ∷ codes "blog"
    ∷ codes "codespaces"
    ∷ codes "collections"
    ∷ codes "contact"
    ∷ codes "copilot"
    ∷ codes "customer-stories"
    ∷ codes "dashboard"
    ∷ codes "docs"
    ∷ codes "enterprise"
    ∷ codes "events"
    ∷ codes "explore"
    ∷ codes "features"
    ∷ codes " groups"
    ∷ codes "groups"
    ∷ codes "help"
    ∷ codes "issues"
    ∷ codes "join"
    ∷ codes "login"
    ∷ codes "marketplace"
    ∷ codes "new"
    ∷ codes "notifications"
    ∷ codes "orgs"
    ∷ codes "organizations"
    ∷ codes "pricing"
    ∷ codes "pulls"
    ∷ codes "readme"
    ∷ codes "search"
    ∷ codes "security"
    ∷ codes "session"
    ∷ codes "settings"
    ∷ codes "signin"
    ∷ codes "signup"
    ∷ codes "site"
    ∷ codes "snippets"
    ∷ codes "sponsors"
    ∷ codes "status"
    ∷ codes "support"
    ∷ codes "team"
    ∷ codes "terms"
    ∷ codes "topics"
    ∷ codes "trending"
    ∷ codes "user"
    ∷ codes "users"
    ∷ []

reserved : Text → Bool
unfolding contains to_lower
reserved root = contains reserved_forge_roots (to_lower root)

any_plus : List Text → Bool
unfolding has_prefix
any_plus [] = false
any_plus (s ∷ segs) = has_prefix s (codes "+") || any_plus segs

-- The switch of isKnownForgeRepo, for the first segment and all segments.
forge_repo : Text → Text → List Text → Bool
unfolding reserved any_plus has_prefix has_suffix contains
forge_repo host first segs =
    if host == codes "github.com"
      || host == codes "codeberg.org"
      || host == codes "bitbucket.org"
      || host == codes "gitea.com"
    then nat_eq (length segs) 2 && not (reserved first)
    else if host == codes "git.sr.ht"
    then nat_eq (length segs) 2 && has_prefix first (codes "~") && leb 2 (length first)
    else if host == codes "gitlab.com"
    then (if not (leb 2 (length segs)) || reserved first
        then false
        else not (contains segs (codes "-")))
    else if has_suffix host (codes ".googlesource.com")
    then not (any_plus segs)
    else false

segments_repo : Text → List Text → Bool
unfolding forge_repo
segments_repo host [] = false
segments_repo host (first ∷ rest) =
    if first == [] then false else forge_repo host first (first ∷ rest)

-- isKnownForgeRepo
unfoldable pub is_known_forge_repo : Text → Text → Bool
unfolding segments_repo trim_prefix trim_right drop_while split
is_known_forge_repo host p =
    segments_repo (trim_prefix host (codes "www."))
      (split slash (trim_right (nat_eq slash) (drop_while (nat_eq slash) p)))

-- strings.ContainsAny(host, `/\`), and the other hosts that are no element of a path.
unfoldable pub unusable_host : Text → Bool
unfolding contains
unusable_host host =
    host == [] || host == dot || host == dot_dot || contains host slash || contains host b'\\'

-- The path in cleanHostAndPath, before it is cleaned and before its tests.
unfoldable pub repo_part : Text → Text
unfolding trim_prefix
repo_part raw_path =
    trim_prefix (trim_prefix (trim_prefix raw_path (codes "/")) (codes "~/")) (codes "~")

unfoldable pub repo_path : Text → Text
unfolding repo_part trim_suffix
repo_path raw_path = trim_suffix (clean (slash ∷ repo_part raw_path)) (codes ".git")

-- cleanHostAndPath
unfoldable pub clean_host_and_path : Text → Text → Option (Text × Text)
unfolding unusable_host trim_prefix has_suffix
clean_host_and_path host raw_path =
    let p = repo_path raw_path in
    if unusable_host host
    then none
    else if p == [] || p == (slash ∷ []) || p == dot
    then none
    else if has_suffix p tmp_suffix
    then none
    else some (host, trim_prefix p (codes "/"))

-- The loop over the default ports.
without_default_port : Text → Text → List (Text × Text) → Text
unfolding has_suffix trim_suffix
without_default_port scheme host [] = host
without_default_port scheme host (d ∷ defs) =
    without_default_port scheme
      (if scheme == d.0 && has_suffix host d.1 then trim_suffix host d.1 else host) defs

abbrev default_ports : List (Text × Text)
default_ports =
    (codes "http", codes ":80")
    ∷ (codes "https", codes ":443")
    ∷ (codes "git", codes ":9418")
    ∷ (codes "ssh", codes ":22")
    ∷ (codes "git+ssh", codes ":22")
    ∷ []

is_git_scheme : Text → Bool
unfolding contains
is_git_scheme scheme =
    contains (codes "http" ∷ codes "https" ∷ codes "git" ∷ codes "ssh" ∷ codes "git+ssh" ∷ [])
      scheme

from_url : Option Url → Option (Text × Text)
unfolding is_git_scheme without_default_port clean_host_and_path to_lower
from_url none = none
from_url (some u) =
    let scheme = to_lower u.scheme in
    if is_git_scheme scheme
    then clean_host_and_path (without_default_port scheme (to_lower u.host) default_ports) u.path
    else none

-- The part after the last @, if there is one.
after_at : Text → Text
unfolding cut_last
after_at s = elim (cut_last b'@' s) [ none ↦ s | some parts ↦ parts.1 ]

-- [user@]host:path
from_scp : Option (Text × Text) → Option (Text × Text)
unfolding after_at clean_host_and_path to_lower
from_scp none = none
from_scp (some (before, after)) =
    if before == [] then none else clean_host_and_path (to_lower (after_at before)) after

-- parseSource: the host and the path; none is an error.
unfoldable pub parse_source : NetUrl → Text → Option (Text × Text)
unfolding from_url from_scp has_infix cut_first
parse_source net source =
    if has_infix source (codes "://")
    then from_url (net.parse source)
    else if has_infix source (codes "::")
    then none
    else from_scp (cut_first b':' source)

parses : Option (Text × Text) → Bool
parses none = false
parses (some parts) = true

web_repo : NetUrl → Text → Option Url → Bool
unfolding parses parse_source is_known_forge_repo trim_suffix has_suffix to_lower
web_repo net source none = false
web_repo net source (some u) =
    let p = trim_suffix u.path (codes "/") in
    if u.host == [] || not (u.raw_query == []) || not (u.fragment == [])
    then false
    else if not (parses (parse_source net source))
    then false
    else if has_suffix p (codes ".git") && not (p == codes "/.git") && not (p == codes ".git")
    then true
    else is_known_forge_repo (to_lower (net.hostname u)) p

-- Match
unfoldable pub match_source : NetUrl → Text → Bool
unfolding web_repo parses parse_source has_prefix has_suffix has_infix trim_suffix
match_source net source =
    let p = trim_suffix source (codes "/") in
    if has_prefix source (codes "git://")
      || has_prefix source (codes "ssh://")
      || has_prefix source (codes "git+ssh://")
    then parses (parse_source net source)
    else if has_prefix source (codes "http://") || has_prefix source (codes "https://")
    then web_repo net source (net.parse source)
    else if not (has_infix source (codes "://")) && not (has_infix source (codes "::"))
    then (if has_prefix p (codes "git@") || has_suffix p (codes ".git")
        then parses (parse_source net source)
        else false)
    else false

clone_dir : Text → Option (Text × Text) → Option Text
clone_dir dest_dir none = none
clone_dir dest_dir (some (host, path)) = some (join (dest_dir ∷ host ∷ path ∷ []))

-- localPath
unfoldable pub local_path : NetUrl → Text → Text → Option Text
unfolding clone_dir parse_source
local_path net dest_dir source = clone_dir dest_dir (parse_source net source)

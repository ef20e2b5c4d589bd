-- ===== src/Job.antt =====
-- internal/daemon/job.go: the states and the data of jobs, the site and the path of a source, and
-- the stored form of flags.
use mirrortools.Prelude.{
  ℕ, Bool, true, false, ◌||◌, not, Option, none, some, List, [], ◌∷◌, ◌++◌, if◌then◌else◌, nat_eq,
  ◌≡◌, ◌↔◌, arith, Eq, ◌==◌, Text, codes, ℤ, text_has_eq, trim_space, trim_right, drop_while,
  to_lower, has_infix, split, slash,
}

-- `unset` is the empty string, which only a job that is not stored yet has.
pub data State : Type 0 where
  unset queued running paused completed failed quarantined cancelled : State

abbrev state_code : State → ℕ
state_code unset = 0
state_code queued = 1
state_code running = 2
state_code paused = 3
state_code completed = 4
state_code failed = 5
state_code quarantined = 6
state_code cancelled = 7

abbrev pub state_eq : State → State → Bool
state_eq a b = nat_eq (state_code a) (state_code b)

state_eq_sound : (a b : State) → state_eq a b ≡ true → a ≡ b
state_eq_sound a b h = ground arith

pub state_eq_iff : (a b : State) → (state_eq a b ≡ true) ↔ (a ≡ b)
state_eq_iff a b = (state_eq_sound a b, λ e. ground arith)

instance abbrev pub state_has_eq : Eq State
state_has_eq = record { same = state_eq; same_iff = state_eq_iff }

-- State.Valid
unfoldable pub valid : State → Bool
valid unset = false
valid _ = true

-- State.IsTerminal
unfoldable pub is_terminal : State → Bool
is_terminal s = s == completed || s == cancelled

-- map[string]string; a nil map and an empty one are both [].
abbrev pub Flags : Type 0
Flags = List (Text × Text)

-- Nanoseconds; 0 is the zero time.
abbrev pub Time : Type 0
Time = ℕ

pub record Job : Type 0 where
  pub id : ℕ
  pub method : Text
  pub source : Text
  pub dest_dir : Text
  pub flags : Flags
  pub state : State
  pub priority : ℤ
  pub created_at : Time
  pub started_at : Option Time
  pub finished_at : Option Time
  pub retry_count : ℕ
  pub max_retries : ℤ
  pub last_error : Text
  pub quarantine_reason : Text
  pub site : Text
  pub path : Text

-- What net/url's Parse returns, its Hostname with it.
pub record Url : Type 0 where
  pub scheme : Text
  pub host : Text
  pub hostname : Text
  pub path : Text
  pub raw_query : Text

-- The packages that the daemon calls and that are not modelled: net/url and encoding/json.
pub record Platform : Type 0 where
  pub parse_url : Text → Option Url
  pub marshal : Flags → Option Text
  -- What json.Unmarshal leaves in a nil map, its error ignored.
  pub unmarshal : Text → Flags

-- encoding/json reads back the maps that it writes.
pub record IsFaithful (p : Platform) : Type 0 where
  pub read_back : (f : Flags) (t : Text) → p.marshal f ≡ some t → p.unmarshal t ≡ f

-- strings.Trim(s, "/")
trim_slashes : Text → Text
unfolding trim_right drop_while
trim_slashes s = trim_right (nat_eq slash) (drop_while (nat_eq slash) s)

abbrev no_root : Text → Text
no_root method = if not (method == []) then method else codes "generic"

project_root : Text → List Text → Text
project_root root (first ∷ second ∷ rest) =
    if first == codes "projects" then root ++ (codes "/projects/" ++ second) else root
project_root root _ = root

web_root : Url → Text
unfolding trim_slashes project_root to_lower has_infix split
web_root u =
    let host = to_lower u.host in
    let scheme = to_lower u.scheme in
    let scheme' = (if scheme == [] then codes "http" else scheme) in
    let root = scheme' ++ (codes "://" ++ host) in
    if has_infix host (codes "sourceforge.net")
    then project_root root (split slash (trim_slashes u.path))
    else root

abbrev pub has_host : Url → Bool
has_host u = not (u.host == [])

module _ (p : Platform) where
  -- ExtractRoot
  unfoldable pub extract_root : Text → Text → Text
  unfolding web_root trim_space
  extract_root source method = elim (p.parse_url (trim_space source)) [
    | none ↦ no_root method
    | some u ↦ if has_host u then web_root u else no_root method
  ]

  url_path : Url → Text
  url_path u =
      let path = (if u.path == [] then slash ∷ [] else u.path) in
      if not (u.raw_query == []) then path ++ (codes "?" ++ u.raw_query) else path

  -- ExtractPath
  unfoldable pub extract_path : Text → Text
  unfolding url_path trim_space
  extract_path source =
      let s = trim_space source in
      elim (p.parse_url s) [ none ↦ s | some u ↦ if has_host u then url_path u else s ]

  -- Job.FlagsJSON
  unfoldable pub flags_json : Flags → Text
  flags_json [] = codes "{}"
  flags_json (f ∷ fs) = elim (p.marshal (f ∷ fs)) [ none ↦ codes "{}" | some t ↦ t ]

  -- Job.SetFlagsJSON, on a job whose map is nil.
  unfoldable pub set_flags_json : Text → Flags
  unfolding trim_space
  set_flags_json raw = if trim_space raw == [] || raw == codes "{}" then [] else p.unmarshal raw

pub data BatchActionKind : Type 0 where
  batch_pause batch_resume batch_quarantine batch_unquarantine : BatchActionKind
  batch_cancel batch_retry batch_delete : BatchActionKind
  -- Any other string.
  batch_other : Text → BatchActionKind

pub record BatchRequest : Type 0 where
  pub action : BatchActionKind
  pub prefix : Text
  pub ids : List ℕ
  pub reason : Text

pub record BatchResult : Type 0 where
  pub action : BatchActionKind
  pub target : Text
  pub matched : ℕ
  pub affected : ℕ
  pub job_ids : List ℕ

pub record JobLog : Type 0 where
  pub id : ℕ
  pub job_id : ℕ
  pub timestamp : Time
  pub stream : Text
  pub message : Text

pub record SubmitRequest : Type 0 where
  pub method : Text
  pub source : Text
  pub dest_dir : Text
  pub flags : Flags
  pub priority : ℤ

-- SubmitRequest.Validate: no error.
unfoldable pub validate : SubmitRequest → Bool
unfolding trim_space
validate r = not (trim_space r.source == [])

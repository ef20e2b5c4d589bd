-- ===== src/Server/Submit.antt =====
-- handleSubmitJob: what is filled in of a request before the job is queued.
use mirrortools.Prelude.{
  Bool, true, false, ◌&&◌, not, Option, none, some, [], ◌∷◌, if◌then◌else◌, ◌==◌, Text, codes,
  text_has_eq, lookup, insert, pos,
}
use mirrortools.FilePaths.{join, is_local}
use mirrortools.Job.{Flags, Time, Platform, SubmitRequest, validate}
use mirrortools.Queue.Methods.{enqueue}
use mirrortools.Config.{MethodConfig}
use mirrortools.Registry.{Method, detect, get}
use mirrortools.Server.{Server, Reply, json, message, one_job, answer, id_event}

-- Why a request is refused before it comes to the queue.
pub data Refusal : Type 0 where
  bad_source not_detected unknown_method no_destination : Refusal

pub data Completed : Type 0 where
  complete : SubmitRequest → Completed
  refuse : Refusal → Completed

refusal_text : Refusal → Text
refusal_text bad_source = codes "source cannot be empty"
refusal_text not_detected = codes "cannot auto-detect mirror method; specify method"
refusal_text unknown_method = codes "unknown mirror method"
refusal_text no_destination =
    codes "no destination directory given and no default destdir configured"

-- The method of a request that names none: `probe` is git.ProbeHTTP.
unfoldable pub detected_method : (Text → Bool) → Text → Option Method → Option Text
detected_method probe source none = none
detected_method probe source (some m) =
    if m.name == codes "http" && probe source then some (codes "git") else some m.name

unfoldable pub is_registered : Option Method → Bool
is_registered none = false
is_registered (some m) = true

unfoldable pub set_default : Text → Text → Flags → Option Text → Flags
unfolding insert
set_default k v flags none = insert k v flags
set_default k v flags (some old) = flags

-- A flag that the request does not set is taken from the method's section.
unfoldable pub merge_flags : Flags → Flags → Flags
unfolding set_default lookup
merge_flags [] flags = flags
merge_flags ((k, v) ∷ defaults) flags =
    merge_flags defaults (set_default k v flags (lookup k flags))

unfoldable pub section_flags : Option MethodConfig → Flags
section_flags none = []
section_flags (some mc) = mc.flags

unfoldable pub section_dest : Option MethodConfig → Text
section_dest none = []
section_dest (some mc) = mc.dest_dir

unfoldable pub subdir_of : Text → Option Method → Text
subdir_of source none = []
subdir_of source (some m) = elim m.subdir [ none ↦ [] | some f ↦ f source ]

-- The destination of a request that gives none: that of the method's section, or the default with
-- the method's directory, if that is a local path; none where neither is configured.
unfoldable pub default_dest : Text → Text → Text → Option Text
unfolding join is_local
default_dest section base sub =
    if not (section == [])
    then some section
    else if not (base == [])
    then some (if not (sub == []) && is_local sub then join (base ∷ sub ∷ []) else base)
    else none

unfoldable pub fill_dest : SubmitRequest → Option Text → Completed
fill_dest req none = refuse no_destination
fill_dest req (some dest) = complete (record req { dest_dir = dest })

unfoldable pub with_flags : Server → SubmitRequest → SubmitRequest
unfolding merge_flags section_flags lookup
with_flags s req = record req {
  flags = merge_flags (section_flags (lookup req.method s.cfg.methods)) req.flags;
}

unfoldable pub with_dest : Server → SubmitRequest → Completed
unfolding fill_dest with_flags default_dest section_dest subdir_of lookup
with_dest s req =
    if not (req.dest_dir == [])
    then complete (with_flags s req)
    else fill_dest (with_flags s req) (
        default_dest (section_dest (lookup req.method s.cfg.methods)) s.cfg.dest_dir
          (subdir_of req.source (get req.method s.methods)))

unfoldable pub with_method : Server → SubmitRequest → Option Text → Completed
unfolding with_dest
with_method s req none = refuse not_detected
with_method s req (some name) = with_dest s (record req { method = name })

-- The request that is queued.
unfoldable pub completed_request : (Text → Bool) → Server → SubmitRequest → Completed
unfolding with_dest with_method detected_method is_registered detect lookup validate
completed_request probe s req =
    if not (validate req)
    then refuse bad_source
    else if req.method == []
    then with_method s req (detected_method probe req.source (detect req.source s.methods))
    else if is_registered (get req.method s.methods)
    then with_dest s req
    else refuse unknown_method

module _ (p : Platform) where
  submit : Time → Completed → Server → Reply × Server
  unfolding answer enqueue id_event refusal_text
  submit now (refuse r) s = (json 400 (message (refusal_text r)), s)
  submit now (complete req) s =
      answer 500 (λ j. id_event (codes "enqueued") (pos j.id)) (λ j. json 201 (one_job j))
        (enqueue p req now s.queue) s

  -- handleSubmitJob; none where the body cannot be decoded.
  unfoldable pub handle_submit_job :
      (Text → Bool) → Time → Option SubmitRequest → Server → Reply × Server
  unfolding submit completed_request
  handle_submit_job probe now none s = (json 400 (message (codes "invalid JSON")), s)
  handle_submit_job probe now (some req) s = submit now (completed_request probe s req) s

-- ===== src/Server.antt =====
-- internal/daemon/server.go: the handlers of the REST API. What net/http and encoding/json make of a
-- request is an argument; the pages' HTML, the streams and the routing are not modelled.
pub mod Queues
pub mod Submit
pub mod Sessions
pub mod Passages
pub mod Filled
pub mod Saved
use mirrortools.Prelude.{
  ℕ, suc, Bool, true, false, Option, none, some, List, [], ◌∷◌, ◌++◌, if◌then◌else◌, ltb, length,
  Text, codes, ℤ, pos, negsuc, format_int, parse_int,
}
use mirrortools.Job.{Job, JobLog, BatchResult}
use mirrortools.Store.Tables.{Result, ok, err, StoreError}
use mirrortools.Queue.{Queue}
use mirrortools.Queue.Methods.{QueueStatus}
use mirrortools.Config.{Config}
use mirrortools.Auth.{AuthManager}
use mirrortools.Registry.{Registry}

-- The server with the registry of methods. An event subscriber is what its channel holds.
pub record Server : Type 0 where
  pub queue : Queue
  pub cfg : Config
  pub config_path : Text
  pub config_file : Option Text
  pub auth : Option AuthManager
  pub event_subs : List (List Text)
  pub methods : Registry

pub data Body : Type 0 where
  message : Text → Body
  failure : StoreError → Body
  status : Text → Body
  one_job : Job → Body
  job_list : List Job → Body
  log_list : List JobLog → Body
  batch_result : BatchResult → Body
  queue_status : QueueStatus → Body
  limit : ℤ → Body
  me : Bool → Bool → Text → Bool → Body
  config_of : Text → Text → Config → Body

-- writeJSON and writeError, and http.Redirect to a path.
pub data Reply : Type 0 where
  json : ℕ → Body → Reply
  see_other : Text → Reply

-- One send of broadcastEvent, to a channel with room for ten.
unfoldable pub offer : Text → List Text → List Text
offer ev sub = if ltb (length sub) 10 then sub ++ ev ∷ [] else sub

unfoldable pub offer_all : Text → List (List Text) → List (List Text)
unfolding offer
offer_all ev [] = []
offer_all ev (sub ∷ subs) = offer ev sub ∷ offer_all ev subs

-- broadcastEvent
unfoldable pub broadcast_event : Text → Server → Server
unfolding offer_all
broadcast_event ev s = record s { event_subs = offer_all ev s.event_subs }

-- parseJobID
unfoldable pub parse_job_id : Text → Option ℤ
unfolding parse_int
parse_job_id = parse_int

-- The id of a row; a negative number is none, and neither is 0.
abbrev pub row_id : ℤ → ℕ
row_id (pos n) = n
row_id (negsuc n) = 0

-- A call of the queue: a failure is written with its code, a success is broadcast and written.
unfoldable pub answer {ℓ} :
    {A : Type ℓ} → ℕ → (A → Text) → (A → Reply) → Result A × Queue → Server → Reply × Server
unfolding broadcast_event
answer code ev reply (err e, q) s = (json code (failure e), record s { queue = q })
answer code ev reply (ok a, q) s = (reply a, broadcast_event (ev a) (record s { queue = q }))

-- A call of the queue that is not broadcast.
unfoldable pub show_result {ℓ} :
    {A : Type ℓ} → (StoreError → ℕ) → (A → Body) → Result A × Queue → Server → Reply × Server
show_result code body (err e, q) s = (json (code e) (failure e), record s { queue = q })
show_result code body (ok a, q) s = (json 200 (body a), record s { queue = q })

-- A handler of a path with an id.
unfoldable pub with_id : Text → (ℤ → Server → Reply × Server) → Server → Reply × Server
unfolding parse_job_id
with_id id handler s = elim (parse_job_id id) [
  | none ↦ (json 400 (message (codes "invalid job ID")), s)
  | some n ↦ handler n s
]

unfoldable pub id_event : Text → ℤ → Text
unfolding format_int
id_event kind n = codes "job:" ++ (kind ++ (codes ":" ++ format_int n))

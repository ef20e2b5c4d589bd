-- ===== src/LogHub.antt =====
-- internal/daemon/loghub.go: the recent log lines of each job, and the channels of those who
-- follow a job. Each method runs under the hub's lock, so it is one step. A send on a closed
-- channel and a second close panic: the hub's state is then `none`.
pub mod Ring
pub mod Sends
pub mod Follow
pub mod Delivery
use mirrortools.Prelude.{
  ℕ, zero, suc, ◌+◌, Bool, true, false, Option, none, some, List, [], ◌∷◌, ◌++◌, if◌then◌else◌,
  ◌==◌, nat_has_eq, ltb, leb, Text, ℤ, positive_or, length, drop, lookup, insert, remove,
}
use mirrortools.Job.{JobLog, Time}

-- A buffered channel: what was sent and not received yet, the oldest first.
pub record Channel : Type 0 where
  pub room : ℕ
  pub buffer : List JobLog
  pub closed : Bool

pub record LogHub : Type 0 where
  pub ring_size : ℕ
  pub recent_logs : List (ℕ × List JobLog)
  pub subscribers : List (ℕ × List ℕ)
  pub channels : List (ℕ × Channel)
  pub next_channel : ℕ

-- NewLogHub
unfoldable pub new_log_hub : ℤ → LogHub
new_log_hub ring_size = record {
  ring_size = positive_or 500 ring_size;
  recent_logs = [];
  subscribers = [];
  channels = [];
  next_channel = 0;
}

abbrev pub or_empty {ℓ} : {A : Type ℓ} → Option (List A) → List A
or_empty none = []
or_empty (some xs) = xs

-- A full ring: the lines move up by one place and the new one takes the last place.
unfoldable pub push_line : ℕ → List JobLog → JobLog → List JobLog
push_line size buf entry =
    if leb size (length buf) then drop 1 buf ++ entry ∷ [] else buf ++ entry ∷ []

-- select { case sub <- entry: default: }
offer : JobLog → Channel → Option Channel
offer entry ch =
    if ch.closed
    then none
    else if ltb (length ch.buffer) ch.room
    then some (record ch { buffer = ch.buffer ++ entry ∷ [] })
    else some ch

offer_to : JobLog → ℕ → List (ℕ × Channel) → Option Channel → Option (List (ℕ × Channel))
unfolding offer insert
offer_to entry i chans none = some chans
offer_to entry i chans (some ch) = elim (offer entry ch) [
  | none ↦ none
  | some ch' ↦ some (insert i ch' chans)
]

unfoldable pub fan_out : JobLog → List ℕ → List (ℕ × Channel) → Option (List (ℕ × Channel))
unfolding offer_to lookup
fan_out entry [] chans = some chans
fan_out entry (i ∷ is) chans = elim (offer_to entry i chans (lookup i chans)) [
  | none ↦ none
  | some chans' ↦ fan_out entry is chans'
]

abbrev pub entry_of : ℕ → Text → Text → Time → JobLog
entry_of job stream message now = record {
  id = 0;
  job_id = job;
  timestamp = now;
  stream = stream;
  message = message;
}

abbrev pub recent : LogHub → ℕ → List JobLog
recent h job = or_empty (lookup job h.recent_logs)

abbrev pub followers : LogHub → ℕ → List ℕ
followers h job = or_empty (lookup job h.subscribers)

-- Broadcast
unfoldable pub broadcast : LogHub → ℕ → JobLog → Option LogHub
broadcast h job entry =
    let kept = insert job (push_line h.ring_size (recent h job) entry) h.recent_logs in
    elim (fan_out entry (followers h job) h.channels) [
      | none ↦ none
      | some chans ↦ some (record h { recent_logs = kept; channels = chans })
    ]

-- Subscribe: the channel, the lines so far, and the hub.
unfoldable pub subscribe : LogHub → ℕ → ℤ → ℕ × List JobLog × LogHub
subscribe h job buffer_size =
    let i = h.next_channel in
    let ch : Channel = record { room = positive_or 100 buffer_size; buffer = []; closed = false } in
    (
      i,
      recent h job,
      record h {
        subscribers = insert job (followers h job ++ i ∷ []) h.subscribers;
        channels = insert i ch h.channels;
        next_channel = suc i;
      },
    )

unfoldable pub without : ℕ → List ℕ → List ℕ
without i [] = []
without i (j ∷ js) = let rest = without i js in if j == i then rest else j ∷ rest

drop_follower : ℕ → ℕ → List (ℕ × List ℕ) → Option (List ℕ) → List (ℕ × List ℕ)
unfolding without insert remove
drop_follower job i subs none = subs
drop_follower job i subs (some is) = elim (without i is) [
  | [] ↦ remove job subs
  | j ∷ js ↦ insert job (j ∷ js) subs
]

close : ℕ → List (ℕ × Channel) → Option Channel → Option (List (ℕ × Channel))
unfolding insert
close i chans none = none
close i chans (some ch) =
    if ch.closed then none else some (insert i (record ch { closed = true }) chans)

-- Unsubscribe
unfoldable pub unsubscribe : LogHub → ℕ → ℕ → Option LogHub
unfolding drop_follower close
unsubscribe h job i =
    let subs = drop_follower job i h.subscribers (lookup job h.subscribers) in
    elim (close i h.channels (lookup i h.channels)) [
      | none ↦ none
      | some chans ↦ some (record h { subscribers = subs; channels = chans })
    ]

-- Clear
unfoldable pub clear : LogHub → ℕ → LogHub
clear h job = record h { recent_logs = remove job h.recent_logs }

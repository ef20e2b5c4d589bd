-- ===== src/LogHub/Delivery.antt =====
-- What a client gets: the lines that Subscribe hands out, and those that are sent afterwards.
use mathlib.Core.Path.{subst}
use mirrortools.Prelude.{
  ℕ, ◌+◌, ◌<◌, ◌≤◌, ◌≡◌, refl, sym, ap, ◌∙◌, false, some, List, [], ◌∷◌, ◌++◌, nat_has_eq, arith,
  length, length-append, lookup, insert, lookup-insert, contains, Bool-cases, inl, inr, All, ℤ,
  positive_or, All-impl, some_eq,
}
use mathlib.Core.List.{append_assoc, append-nil}
use mirrortools.Job.{JobLog}
use mirrortools.LogHub.{
  LogHub, Channel, recent, followers, broadcast, subscribe, new_log_hub, push_line,
}
use mirrortools.LogHub.Ring.{broadcasts}
use mirrortools.LogHub.Sends.{IsOpen, IsOpen-insert, fan_out-last}
use mirrortools.LogHub.Follow.{
  IsSound, All-contains, Use, use_all, use_all-IsSound, new_log_hub-IsSound,
}

-- A line of a job is sent to the client that subscribed last.
broadcast-last :
    (h : LogHub) (job i : ℕ) (others : List ℕ) (ch : Channel) (l : JobLog)
    → followers h job ≡ others ++ i ∷ []
    → All (IsOpen h.channels) others
    → contains others i ≡ false
    → lookup i h.channels ≡ some ch
    → ch.closed ≡ false
    → length ch.buffer < ch.room
    → (h' : LogHub) × (broadcast h job l ≡ some h')
      × (lookup i h'.channels ≡ some (record ch { buffer = ch.buffer ++ l ∷ [] }))
      × ((j : ℕ) → IsOpen h.channels j → IsOpen h'.channels j)
      × (followers h' job ≡ followers h job)
unfolding broadcast
broadcast-last h job i others ch l f o apart here shut room =
    let (chans', e, sent, keep) = fan_out-last l others i ch h.channels o apart here shut room in
    let kept = insert job (push_line h.ring_size (recent h job) l) h.recent_logs in
    (record h { recent_logs = kept; channels = chans' }, ground (arith, e, f), sent, keep, refl)

-- The lines of a job that are sent to the client that subscribed last.
delivered :
    (h : LogHub) (job i : ℕ) (others : List ℕ) (ch : Channel) (lines : List JobLog)
    → followers h job ≡ others ++ i ∷ []
    → All (IsOpen h.channels) others
    → contains others i ≡ false
    → lookup i h.channels ≡ some ch
    → ch.closed ≡ false
    → length ch.buffer + length lines ≤ ch.room
    → (h' : LogHub) × (broadcasts h job lines ≡ some h')
      × (lookup i h'.channels ≡ some (record ch { buffer = ch.buffer ++ lines }))
unfolding broadcasts
delivered h job i others ch [] f o apart here shut room = (
  h,
  refl,
  here ∙ ap (λ (b : List JobLog). some (record ch { buffer = b })) (sym (append-nil ch.buffer)),
)
delivered h job i others ch (l ∷ lines) f o apart here shut room =
    let (mid, e, sent, keep, same) =
      broadcast-last h job i others ch l f o apart here shut (omega (arith, room)) in
    let (h', e', got) =
      delivered mid job i others (record ch { buffer = ch.buffer ++ l ∷ [] }) lines (same ∙ f)
        (All-impl (IsOpen h.channels) (IsOpen mid.channels) others keep o) apart sent shut
        (ground (arith, room, length-append ch.buffer (l ∷ []))) in
    (
      h',
      ground (arith, e, e'),
      got
          ∙ ap (λ (b : List JobLog). some (record ch { buffer = b }))
              (append_assoc ch.buffer (l ∷ []) lines),
    )

-- Nobody follows a job by a channel that was not handed out yet.
fresh_follower :
    (h : LogHub) (job : ℕ) → IsSound h → contains (followers h job) h.next_channel ≡ false
fresh_follower h job s = elim (Bool-cases (contains (followers h job) h.next_channel)) [
  | inl f ↦ absurd (omega (arith, (s job h.next_channel f).1))
  | inr f ↦ f
]

subscribed :
    (h : LogHub) (job : ℕ) (room : ℤ) (lines : List JobLog)
    → IsSound h
    → length lines ≤ positive_or 100 room
    → (h' : LogHub) × (broadcasts (subscribe h job room).2 job lines ≡ some h')
      × (lookup (subscribe h job room).0 h'.channels
          ≡ some (record { room = positive_or 100 room; buffer = lines; closed = false }))
unfolding subscribe
subscribed h job room lines s few =
    let new = h.next_channel in
    let ch : Channel = record { room = positive_or 100 room; buffer = []; closed = false } in
    delivered (subscribe h job room).2 job new (followers h job) ch lines
      (ground (arith, lookup-insert job job (followers h job ++ new ∷ []) h.subscribers))
      (All-contains (IsOpen (insert new ch h.channels)) (followers h job)
        (λ i f. IsOpen-insert new i ch h.channels refl (s job i f).0))
      (fresh_follower h job s) (ground (arith, lookup-insert new new ch h.channels)) refl
      (omega (arith, few))

-- In a hub that was used in any way, Subscribe hands out the job's recent lines, and the lines
-- that are broadcast for the job right afterwards, as many as the channel has room for, are all in
-- the channel, in their order.
pub subscribe-broadcasts :
    (size room : ℤ) (us : List Use) (h : LogHub) (job : ℕ) (lines : List JobLog)
    → use_all (new_log_hub size) us ≡ some h
    → length lines ≤ positive_or 100 room
    → ((subscribe h job room).1 ≡ recent h job)
      × ((h' : LogHub) × (broadcasts (subscribe h job room).2 job lines ≡ some h')
          × (lookup (subscribe h job room).0 h'.channels
              ≡ some (record { room = positive_or 100 room; buffer = lines; closed = false })))
subscribe-broadcasts size room us h job lines e few =
    let (reached, e', s) = use_all-IsSound (new_log_hub size) us (new_log_hub-IsSound size) in
    let same : reached ≡ h = some_eq (sym e' ∙ e) in
    ((unfold subscribe in refl), subscribed h job room lines (subst IsSound same s) few)

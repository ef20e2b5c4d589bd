-- ===== src/Tests/Hub.antt =====
-- The theorems on the hub, on a hub with one follower.
use mirrortools.LogHub.Delivery.{subscribe-broadcasts}
use mirrortools.LogHub.Follow.{
  Use, subscribes, unsubscribes, broadcasts_line, clears, use_all, use_all-total,
}
use mirrortools.Prelude.{nat_has_eq, [], ◌∷◌, ◌≡◌, refl, pos, some, lookup, false, List, arith}
use mirrortools.LogHub.{LogHub, new_log_hub, recent, subscribe, fan_out, push_line}
use mirrortools.LogHub.Ring.{broadcasts, recent-broadcasts}
use mirrortools.Tests.Samples.{line_of}

recent-broadcasts_example :
    (h : LogHub) × (broadcasts
        (new_log_hub (pos 2))
        1
        (line_of 1 1 ∷ line_of 2 1 ∷ line_of 3 1 ∷ [])
      ≡ some h)
    × (recent h 1 ≡ line_of 2 1 ∷ line_of 3 1 ∷ [])
recent-broadcasts_example =
    recent-broadcasts (pos 2) 1 (line_of 1 1 ∷ line_of 2 1 ∷ line_of 3 1 ∷ [])

-- Two clients follow a job, and the first one stops.
abbrev uses : List Use
uses =
    subscribes 1 (pos 2)
    ∷ broadcasts_line 1 (line_of 1 1)
    ∷ subscribes 1 (pos 2)
    ∷ unsubscribes 1 0
    ∷ unsubscribes 1 0
    ∷ broadcasts_line 1 (line_of 2 1)
    ∷ clears 1
    ∷ []

use_all-total_example : (h : LogHub) × (use_all (new_log_hub (pos 2)) uses ≡ some h)
use_all-total_example = use_all-total (pos 2) uses

-- The hub after one line, which one client follows.
abbrev followed : LogHub
followed = record {
  ring_size = 2;
  recent_logs = (1, line_of 1 1 ∷ []) ∷ [];
  subscribers = (1, 0 ∷ []) ∷ [];
  channels = (0, record { room = 2; buffer = line_of 1 1 ∷ []; closed = false }) ∷ [];
  next_channel = 1;
}

subscribe-broadcasts_example :
    ((subscribe followed 1 (pos 3)).1 ≡ line_of 1 1 ∷ [])
    × ((h' : LogHub) × (broadcasts
            (subscribe followed 1 (pos 3)).2
            1
            (line_of 2 1 ∷ line_of 3 1 ∷ [])
          ≡ some h')
        × (lookup (subscribe followed 1 (pos 3)).0 h'.channels
            ≡ some (record { room = 3; buffer = line_of 2 1 ∷ line_of 3 1 ∷ []; closed = false })))
unfolding use_all lookup fan_out new_log_hub push_line
subscribe-broadcasts_example =
    subscribe-broadcasts (pos 2) (pos 3)
      (subscribes 1 (pos 2) ∷ broadcasts_line 1 (line_of 1 1) ∷ []) followed 1
      (line_of 2 1 ∷ line_of 3 1 ∷ []) refl (omega arith)

-- ===== src/LogHub/Sends.antt =====
-- What Broadcast sends to the open channels of a job's followers.
use mirrortools.Prelude.{
  ℕ, ◌<◌, ◌≡◌, refl, ◌∙◌, Bool, true, false, Option, none, some, List, [], ◌∷◌, ◌++◌, if◌then◌else◌,
  nat_has_eq, arith, ltb, length, lookup, insert, lookup-insert, contains, Bool-cases, inl, inr,
  All, All-impl, Option-cases,
}
use mirrortools.Job.{JobLog}
use mirrortools.LogHub.{Channel, offer, offer_to, fan_out}

unfoldable pub is_open : Option Channel → Bool
is_open none = false
is_open (some ch) = if ch.closed then false else true

-- The hub's channel i is there and open.
abbrev pub IsOpen : List (ℕ × Channel) → ℕ → Type 0
IsOpen chans i = is_open (lookup i chans) ≡ true

pub IsOpen-insert :
    (i j : ℕ) (ch : Channel) (chans : List (ℕ × Channel))
    → ch.closed ≡ false
    → IsOpen chans j
    → IsOpen (insert i ch chans) j
unfolding is_open
IsOpen-insert i j ch chans o w = ground (arith, lookup-insert i j ch chans)

-- What one send keeps: the open channels, and whatever the others hold.
abbrev pub Keeps : List ℕ → List (ℕ × Channel) → List (ℕ × Channel) → Type 0
Keeps is chans chans' =
    ((j : ℕ) → IsOpen chans j → IsOpen chans' j)
    × ((j : ℕ) → contains is j ≡ false → lookup j chans' ≡ lookup j chans)

Keeps-insert :
    (i : ℕ) (ch : Channel) (chans : List (ℕ × Channel))
    → ch.closed ≡ false
    → Keeps (i ∷ []) chans (insert i ch chans)
unfolding contains
Keeps-insert i ch chans o = (
  (λ j w. IsOpen-insert i j ch chans o w),
  (λ j d. ground (arith, lookup-insert i j ch chans, d)),
)

offer_to-IsOpen :
    (entry : JobLog) (i : ℕ) (chans : List (ℕ × Channel)) (c : Option Channel)
    → is_open c ≡ true
    → (chans' : List (ℕ × Channel)) × (offer_to entry i chans c ≡ some chans')
      × Keeps (i ∷ []) chans chans'
unfolding offer_to offer is_open
offer_to-IsOpen entry i chans none o = ground (arith, o)
offer_to-IsOpen entry i chans (some ch) o = elim (Bool-cases (ltb (length ch.buffer) ch.room)) [
  | inl room ↦
      let ch' = record ch { buffer = ch.buffer ++ entry ∷ [] } in
      (insert i ch' chans, ground (arith, o, room), Keeps-insert i ch' chans (ground (arith, o)))
  | inr full ↦
      (insert i ch chans, ground (arith, o, full), Keeps-insert i ch chans (ground (arith, o)))
]

pub fan_out-Keeps :
    (entry : JobLog) (is : List ℕ) (chans : List (ℕ × Channel))
    → All (IsOpen chans) is
    → (chans' : List (ℕ × Channel)) × (fan_out entry is chans ≡ some chans') × Keeps is chans chans'
unfolding fan_out contains
fan_out-Keeps entry [] chans open_all = (chans, refl, ((λ j w. w), (λ j d. refl)))
fan_out-Keeps entry (i ∷ is) chans (w, ws) =
    let (mid, e, keep) = offer_to-IsOpen entry i chans (lookup i chans) w in
    let (chans', e', keep') =
      fan_out-Keeps entry is mid (All-impl (IsOpen chans) (IsOpen mid) is keep.0 ws) in
    (
      chans',
      ground (arith, e, e'),
      (
        (λ j v. keep'.0 j (keep.0 j v)),
        (λ j d. keep'.1 j (ground (arith, d)) ∙ keep.1 j (ground (arith, d))),
      ),
    )

fan_out-append :
    (entry : JobLog) (is js : List ℕ) (chans mid : List (ℕ × Channel))
    → fan_out entry is chans ≡ some mid
    → fan_out entry (is ++ js) chans ≡ fan_out entry js mid
unfolding fan_out
fan_out-append entry [] js chans mid e = ground (arith, e)
fan_out-append entry (i ∷ is) js chans mid e =
    elim (Option-cases (offer_to entry i chans (lookup i chans))) [
      | inl k ↦ let panics = rw (k, fan_out) at e in cc
      | inr (next, k) ↦ rw (k, fan_out) (fan_out-append entry is js next mid (rw (k, fan_out) at e))
    ]

offer_room :
    (entry : JobLog) (i : ℕ) (ch : Channel) (chans : List (ℕ × Channel))
    → ch.closed ≡ false
    → length ch.buffer < ch.room
    → offer_to entry i chans (some ch)
      ≡ some (insert i (record ch { buffer = ch.buffer ++ entry ∷ [] }) chans)
unfolding offer_to offer
offer_room entry i ch chans o room = ground (arith, o, room)

fan_out-one :
    (entry : JobLog) (i : ℕ) (ch : Channel) (chans : List (ℕ × Channel)) (o : Option Channel)
    → lookup i chans ≡ o
    → o ≡ some ch
    → ch.closed ≡ false
    → length ch.buffer < ch.room
    → fan_out entry (i ∷ []) chans
      ≡ some (insert i (record ch { buffer = ch.buffer ++ entry ∷ [] }) chans)
unfolding fan_out
fan_out-one entry i ch chans o here same open_one room =
    rw (here ∙ same, fan_out, offer_room entry i ch chans open_one room) refl

-- A line reaches the follower that subscribed last, while its channel has room.
pub fan_out-last :
    (entry : JobLog) (is : List ℕ) (i : ℕ) (ch : Channel) (chans : List (ℕ × Channel))
    → All (IsOpen chans) is
    → contains is i ≡ false
    → lookup i chans ≡ some ch
    → ch.closed ≡ false
    → length ch.buffer < ch.room
    → (chans' : List (ℕ × Channel)) × (fan_out entry (is ++ i ∷ []) chans ≡ some chans')
      × (lookup i chans' ≡ some (record ch { buffer = ch.buffer ++ entry ∷ [] }))
      × ((j : ℕ) → IsOpen chans j → IsOpen chans' j)
unfolding fan_out
fan_out-last entry is i ch chans open_all apart here o room =
    let (mid, e, keep) = fan_out-Keeps entry is chans open_all in
    let there : lookup i mid ≡ some ch = keep.1 i apart ∙ here in
    let ch' : Channel = record ch { buffer = ch.buffer ++ entry ∷ [] } in
    (
      insert i ch' mid,
      fan_out-append entry is (i ∷ []) chans mid e
          ∙ fan_out-one entry i ch mid (lookup i mid) refl there o room,
      ground (arith, lookup-insert i i ch' mid),
      (λ j v. IsOpen-insert i j ch' mid o (keep.0 j v)),
    )

-- ===== src/LogHub/Follow.antt =====
-- Following a job: the hub stays sound however it is used, as long as each channel is unsubscribed
-- once, from its job.
use mathlib.Core.Path.{subst}
use mirrortools.Prelude.{
  ℕ, ◌<◌, ◌≡◌, ◌≢◌, refl, sym, ◌∙◌, ◌⊎◌, true, false, Option, none, some, List, [], ◌∷◌, ◌++◌, ◌==◌,
  if◌then◌else◌, nat_has_eq, arith, lookup, insert, lookup-insert, lookup-remove, contains,
  Bool-cases, inl, inr, All, ℤ, positive_or,
}
use mirrortools.Job.{JobLog}
use mirrortools.LogHub.{
  LogHub, Channel, or_empty, recent, followers, broadcast, subscribe, unsubscribe, without,
  drop_follower, close, clear, new_log_hub, push_line,
}
use mirrortools.LogHub.Sends.{is_open, IsOpen, IsOpen-insert, fan_out-Keeps}

abbrev pub Follows : LogHub → ℕ → ℕ → Type 0
Follows h job i = contains (followers h job) i ≡ true

-- Each follower is an open channel that was handed out, and follows one job.
abbrev pub IsSound : LogHub → Type 0
IsSound h =
    (job i : ℕ)
    → Follows h job i
    → IsOpen h.channels i × (i < h.next_channel) × ((other : ℕ) → Follows h other i → other ≡ job)

pub All-contains :
    (P : ℕ → Type 0) (is : List ℕ) → ((i : ℕ) → contains is i ≡ true → P i) → All P is
unfolding contains
All-contains P [] h = tt
All-contains P (i ∷ is) h = (h i (ground arith), All-contains P is (λ j k. h j (ground (arith, k))))

broadcast-IsSound :
    (h : LogHub) (job : ℕ) (entry : JobLog)
    → IsSound h
    → (h' : LogHub) × (broadcast h job entry ≡ some h') × IsSound h'
unfolding broadcast
broadcast-IsSound h job entry s =
    let (chans', e, keep) =
      fan_out-Keeps entry (followers h job) h.channels
        (All-contains (IsOpen h.channels) (followers h job) (λ i k. (s job i k).0)) in
    let kept = insert job (push_line h.ring_size (recent h job) entry) h.recent_logs in
    (
      record h { recent_logs = kept; channels = chans' },
      ground (arith, e),
      (λ a i k. (keep.0 i (s a i k).0, (s a i k).1, (s a i k).2)),
    )

contains-append :
    (xs : List ℕ) (i j : ℕ) → contains (xs ++ i ∷ []) j ≡ true → (contains xs j ≡ true) ⊎ (j ≡ i)
unfolding contains
contains-append [] i j h = inr (ground (arith, h))
contains-append (x ∷ xs) i j h = elim (Bool-cases (x == j)) [
  | inl e ↦ inl (ground (arith, e))
  | inr e ↦ elim (contains-append xs i j (ground (arith, e, h))) [
    | inl k ↦ inl (ground (arith, k))
    | inr k ↦ inr k
  ]
]

-- A follower after a subscription is one from before, or the new channel, of its job.
Follows-after :
    (h : LogHub) (job i j : ℕ) (o : Option (List ℕ))
    → lookup j (insert job (followers h job ++ i ∷ []) h.subscribers) ≡ o
    → (k : ℕ) → contains (or_empty o) k ≡ true
    → Follows h j k ⊎ ((j ≡ job) × (k ≡ i))
Follows-after h job i j o e k f = elim (Bool-cases (job == j)) [
  | inl same ↦
      let here : o ≡ some (followers h job ++ i ∷ []) =
        ground (arith, e, same, lookup-insert job j (followers h job ++ i ∷ []) h.subscribers) in
      let eq : j ≡ job = ground (arith, same) in
      elim (contains-append (followers h job) i k (rw here at f)) [
        | inl l ↦ inl (subst (λ (x : ℕ). Follows h x k) (sym eq) l)
        | inr l ↦ inr (eq, l)
      ]
  | inr other ↦
      let there : o ≡ lookup j h.subscribers =
        ground (arith, e, other, lookup-insert job j (followers h job ++ i ∷ []) h.subscribers) in
      inl (subst (λ (x : Option (List ℕ)). contains (or_empty x) k ≡ true) there f)
]

pub subscribe-IsSound :
    (h : LogHub) (job : ℕ) (size : ℤ) → IsSound h → IsSound (subscribe h job size).2
unfolding subscribe is_open
subscribe-IsSound h job size s a j f =
    let new = h.next_channel in
    let ch : Channel = record { room = positive_or 100 size; buffer = []; closed = false } in
    elim (Follows-after h job new a _ refl j f) [
      | inl old ↦
          let (o, b, one) = s a j old in
          (
            IsOpen-insert new j ch h.channels refl o,
            omega (arith, b),
            (λ other g. elim (Follows-after h job new other _ refl j g) [
              | inl older ↦ one other older
              | inr (e, k) ↦ absurd (omega (arith, b, k))
            ]),
          )
      | inr (here, fresh) ↦ (
        ground (arith, fresh, lookup-insert new j ch h.channels),
        omega (arith, fresh),
        (λ other g. elim (Follows-after h job new other _ refl j g) [
          | inl older ↦ absurd (omega (arith, fresh, (s other j older).1))
          | inr (e, k) ↦ e ∙ sym here
        ]),
      )
    ]

contains-without :
    (i j : ℕ) (is : List ℕ) → contains (without i is) j ≡ true → (contains is j ≡ true) × (j ≢ i)
unfolding contains without
contains-without i j [] h = cc
contains-without i j (x ∷ is) h = elim (Bool-cases (x == i)) [
  | inl e ↦ let (k, d) = contains-without i j is (ground (arith, e, h)) in (ground (arith, k), d)
  | inr e ↦ elim (Bool-cases (x == j)) [
    | inl k ↦ (ground (arith, k), (λ z. ground (arith, e, k, z)))
    | inr k ↦
        let (l, d) = contains-without i j is (ground (arith, e, h, k)) in (ground (arith, l), d)
  ]
]

-- What a job's list holds once a channel is dropped.
kept_lists :
    (job i a : ℕ) (subs : List (ℕ × List ℕ)) (is : List ℕ) (left : List ℕ)
    → without i is ≡ left
    → or_empty (lookup a (drop_follower job i subs (some is)))
      ≡ (if job == a then without i is else or_empty (lookup a subs))
unfolding drop_follower
kept_lists job i a subs is [] e = rw e (ground (arith, lookup-remove job a subs))
kept_lists job i a subs is (x ∷ xs) e = rw e (ground (arith, lookup-insert job a (x ∷ xs) subs))

still_follows :
    (job i a j : ℕ) (subs : List (ℕ × List ℕ)) (o : Option (List ℕ))
    → lookup job subs ≡ o
    → ((b : ℕ) → contains (or_empty (lookup b subs)) i ≡ true → b ≡ job)
    → contains (or_empty (lookup a (drop_follower job i subs o))) j ≡ true
    → (contains (or_empty (lookup a subs)) j ≡ true) × (j ≢ i ⊎ (o ≡ none))
unfolding drop_follower
still_follows job i a j subs none e one f = (f, inr refl)
still_follows job i a j subs (some is) e one f =
    let lists = kept_lists job i a subs is (without i is) refl in
    elim (Bool-cases (job == a)) [
      | inl same ↦
          let (k, d) = contains-without i j is (ground (arith, f, lists, same)) in
          let here : lookup a subs ≡ some is = ground (arith, e, same) in (rw here k, inl d)
      | inr other ↦
          let k : contains (or_empty (lookup a subs)) j ≡ true = ground (arith, f, lists, other) in
          (
            k,
            inl (λ z. ground (
              arith,
              other,
              one a (subst (λ (x : ℕ). contains (or_empty (lookup a subs)) x ≡ true) z k),
            )),
          )
    ]

close-IsOpen :
    (i : ℕ) (chans : List (ℕ × Channel)) (c : Option Channel)
    → is_open c ≡ true
    → (chans' : List (ℕ × Channel)) × (close i chans c ≡ some chans')
      × ((j : ℕ) → j ≢ i → IsOpen chans j → IsOpen chans' j)
unfolding close is_open
close-IsOpen i chans none o = ground (arith, o)
close-IsOpen i chans (some ch) o =
    let shut : Channel = record ch { closed = true } in
    (
      insert i shut chans,
      ground (arith, o),
      (λ j d w. ground (arith, lookup-insert i j shut chans, d, w)),
    )

no_list : (i : ℕ) (o : Option (List ℕ)) → contains (or_empty o) i ≡ true → o ≢ none
unfolding contains
no_list i none f e = cc
no_list i (some is) f e = cc

unsubscribe-IsSound :
    (h : LogHub) (job i : ℕ)
    → IsSound h
    → Follows h job i
    → (h' : LogHub) × (unsubscribe h job i ≡ some h') × IsSound h'
unfolding unsubscribe
unsubscribe-IsSound h job i s f =
    let (chans', e, keep) = close-IsOpen i h.channels (lookup i h.channels) (s job i f).0 in
    (
      record h {
        subscribers = drop_follower job i h.subscribers (lookup job h.subscribers);
        channels = chans';
      },
      ground (arith, e),
      (λ a j k.
          let (old, d) =
            still_follows job i a j h.subscribers (lookup job h.subscribers) refl (s job i f).2 k in
          let apart : j ≢ i = elim d [
            | inl ne ↦ ne
            | inr none_there ↦ absurd (no_list i (lookup job h.subscribers) f none_there)
          ] in
          (
            keep j apart (s a j old).0,
            (s a j old).1,
            (λ b g.
                (s a j old).2 b
                  (still_follows job i b j h.subscribers (lookup job h.subscribers) refl
                    (s job i f).2 g).0),
          )),
    )

-- How the hub is used: a line of a job, a client that follows a job, with the room of its channel,
-- one that stops following it, and a job whose lines are cleared. A client stops once, with the
-- channel and the job of its subscription; what is not possible changes nothing.
pub data Use : Type 0 where
  broadcasts_line : ℕ → JobLog → Use
  subscribes : ℕ → ℤ → Use
  unsubscribes : ℕ → ℕ → Use
  clears : ℕ → Use

unfoldable pub use_hub : LogHub → Use → Option LogHub
unfolding broadcast subscribe unsubscribe clear contains
use_hub h (broadcasts_line job entry) = broadcast h job entry
use_hub h (subscribes job size) = some (subscribe h job size).2
use_hub h (unsubscribes job i) =
    if contains (followers h job) i then unsubscribe h job i else some h
use_hub h (clears job) = some (clear h job)

use_hub-IsSound :
    (h : LogHub) (u : Use) → IsSound h → (h' : LogHub) × (use_hub h u ≡ some h') × IsSound h'
unfolding use_hub clear
use_hub-IsSound h (broadcasts_line job entry) s = broadcast-IsSound h job entry s
use_hub-IsSound h (subscribes job size) s =
    ((subscribe h job size).2, refl, subscribe-IsSound h job size s)
use_hub-IsSound h (unsubscribes job i) s = elim (Bool-cases (contains (followers h job) i)) [
  | inl f ↦ let (h', e, s') = unsubscribe-IsSound h job i s f in (h', rw f e, s')
  | inr f ↦ (h, rw f refl, s)
]
use_hub-IsSound h (clears job) s = (clear h job, refl, s)

unfoldable pub use_all : LogHub → List Use → Option LogHub
unfolding use_hub
use_all h [] = some h
use_all h (u ∷ us) = elim (use_hub h u) [ none ↦ none | some h' ↦ use_all h' us ]

pub use_all-IsSound :
    (h : LogHub) (us : List Use) → IsSound h → (h' : LogHub) × (use_all h us ≡ some h') × IsSound h'
unfolding use_all
use_all-IsSound h [] s = (h, refl, s)
use_all-IsSound h (u ∷ us) s =
    let (mid, e, s') = use_hub-IsSound h u s in
    let (h', e', s'') = use_all-IsSound mid us s' in (h', ground (arith, e, e'), s'')

pub new_log_hub-IsSound : (size : ℤ) → IsSound (new_log_hub size)
unfolding new_log_hub contains lookup
new_log_hub-IsSound size job i f = cc

-- However a new hub is used, by lines of jobs, clients that subscribe, clients that unsubscribe
-- once from the job they follow, and jobs that are cleared, in any order, it never panics.
pub use_all-total :
    (size : ℤ) (us : List Use) → (h : LogHub) × (use_all (new_log_hub size) us ≡ some h)
use_all-total size us =
    let (h, e, s) = use_all-IsSound (new_log_hub size) us (new_log_hub-IsSound size) in (h, e)

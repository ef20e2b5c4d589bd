-- ===== src/LogHub/Ring.antt =====
-- The recent lines of a job are the last ones that were broadcast.
use mirrortools.Prelude.{
  ℕ, zero, suc, ◌-◌, ◌≤◌, ◌≡◌, refl, sym, ap, ◌∙◌, true, false, Option, none, some, List, [], ◌∷◌,
  ◌++◌, if◌then◌else◌, ◌==◌, nat_has_eq, arith, leb, length, length-append, length-drop, drop,
  lookup, insert, lookup-insert, Option-cases, Bool-cases, inl, inr, ℤ, positive_or,
}
use mathlib.Core.List.{append_assoc, append-nil}
use mathlib.Core.Path.{subst}
use mirrortools.Job.{JobLog}
use mirrortools.LogHub.{LogHub, push_line, fan_out, recent, followers, broadcast, new_log_hub}

-- The last n items.
abbrev pub last_n {ℓ} : {A : Type ℓ} → ℕ → List A → List A
last_n n xs = drop (length xs - n) xs

drop-append_le : (k : ℕ) (xs ys : List JobLog) → k ≤ length xs → drop k (xs ++ ys) ≡ drop k xs ++ ys
drop-append_le zero xs ys h = refl
drop-append_le (suc k) [] ys h = absurd (omega arith)
drop-append_le (suc k) (x ∷ xs) ys h = drop-append_le k xs ys (omega arith)

drop-suc : (k : ℕ) (xs : List JobLog) → drop (suc k) xs ≡ drop 1 (drop k xs)
drop-suc zero [] = refl
drop-suc zero (x ∷ xs) = refl
drop-suc (suc k) [] = refl
drop-suc (suc k) (x ∷ xs) = drop-suc k xs

-- One line more pushes the oldest out of a full ring.
push_line-last_n :
    (n : ℕ) (xs : List JobLog) (x : JobLog)
    → 1 ≤ n
    → push_line n (last_n n xs) x ≡ last_n n (xs ++ x ∷ [])
unfolding push_line
push_line-last_n n xs x h =
    let d = length xs - n in
    let len = length-drop d xs in
    let more = length-append xs (x ∷ []) in
    elim (Bool-cases (leb n (length xs))) [
      | inl full ↦
          let full' : leb n (length (drop d xs)) ≡ true = ground (arith, len, full) in
          let count : length (xs ++ x ∷ []) - n ≡ suc d = ground (arith, more, full) in
          rw (full', count)
            (ap (λ l. l ++ x ∷ []) (sym (drop-suc d xs))
              ∙ sym (drop-append_le (suc d) xs (x ∷ []) (ground (arith, full))))
      | inr room ↦
          let room' : leb n (length (drop d xs)) ≡ false = ground (arith, len, room) in
          let count : length (xs ++ x ∷ []) - n ≡ 0 = ground (arith, more, room) in
          let none_out : d ≡ 0 = ground (arith, room) in
          rw (room', count) (ap (λ k. drop k xs ++ x ∷ []) none_out)
    ]

-- A job's lines as they are broadcast, one after the other; `none` if one of the sends panics.
unfoldable pub broadcasts : LogHub → ℕ → List JobLog → Option LogHub
broadcasts h job [] = some h
broadcasts h job (l ∷ ls) = elim (broadcast h job l) [
  | none ↦ none
  | some h' ↦ broadcasts h' job ls
]

recent-broadcast :
    (h h' : LogHub) (job j : ℕ) (l : JobLog)
    → broadcast h job l ≡ some h'
    → (recent h' j ≡ (if job == j then push_line h.ring_size (recent h job) l else recent h j))
      × (h'.ring_size ≡ h.ring_size)
unfolding broadcast
recent-broadcast h h' job j l e = ground (
  arith,
  lookup-insert job j (push_line h.ring_size (recent h job) l) h.recent_logs,
  e,
  Option-cases (fan_out l (followers h job) h.channels),
)

recent_after :
    (n : ℕ) (past : List JobLog) (h : LogHub) (job : ℕ) (ls : List JobLog) (h' : LogHub)
    → h.ring_size ≡ n
    → 1 ≤ n
    → recent h job ≡ last_n n past
    → broadcasts h job ls ≡ some h'
    → recent h' job ≡ last_n n (past ++ ls)
unfolding broadcasts
recent_after n past h job [] h' size pos r e =
    let same : h ≡ h' = cc in
    subst (λ g. recent g job ≡ last_n n (past ++ [])) same (rw append-nil r)
recent_after n past h job (l ∷ ls) h' size pos r e = elim (Option-cases (broadcast h job l)) [
  | inl panics ↦ let bad = rw (panics, broadcasts) at e in cc
  | inr (g, step) ↦
      let k = recent-broadcast h g job job l step in
      let pushed : recent g job ≡ push_line n (last_n n past) l = ground (arith, k.0, r, size) in
      let rest : broadcasts g job ls ≡ some h' = rw (step, broadcasts) at e in
      let ih =
        recent_after n (past ++ l ∷ []) g job ls h' (k.1 ∙ size) pos
          (pushed ∙ push_line-last_n n past l pos) rest in
      rw append_assoc at ih
]

-- Where nobody follows a job, no line of it panics.
broadcasts-total :
    (h : LogHub) (job : ℕ) (ls : List JobLog)
    → followers h job ≡ []
    → (h' : LogHub) × (broadcasts h job ls ≡ some h')
unfolding broadcasts
broadcasts-total h job [] e = (h, refl)
broadcasts-total h job (l ∷ ls) e =
    let kept = insert job (push_line h.ring_size (recent h job) l) h.recent_logs in
    let step : broadcast h job l ≡ some (record h { recent_logs = kept }) =
      unfold broadcast fan_out in ground (arith, e) in
    let (h', rest) = broadcasts-total (record h { recent_logs = kept }) job ls e in
    (h', ground (arith, step, rest))

-- However many lines a job has had in a new hub, none of them panics, and its recent lines are the
-- last of them, as many as the ring holds, in the order in which they were broadcast.
pub recent-broadcasts :
    (size : ℤ) (job : ℕ) (ls : List JobLog)
    → (h : LogHub) × (broadcasts (new_log_hub size) job ls ≡ some h)
      × (recent h job ≡ last_n (positive_or 500 size) ls)
unfolding new_log_hub lookup
recent-broadcasts size job ls =
    let (h, e) = broadcasts-total (new_log_hub size) job ls refl in
    (
      h,
      e,
      recent_after (positive_or 500 size) [] (new_log_hub size) job ls h refl (ground arith)
          (ground arith) e,
    )

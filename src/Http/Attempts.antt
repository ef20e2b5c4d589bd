-- ===== src/Http/Attempts.antt =====
-- How often process asks a server for one URL.
use mirrortools.Prelude.{
  ℕ, zero, suc, ◌+◌, ◌≤◌, ◌≡◌, refl, Bool, true, false, ◌&&◌, not, Option, none, some, arith, Text,
  if_holds, ◌≢◌, ◌∙◌, ap, sym, nat_eq, Bool-cases, inl, inr,
}
use mirrortools.NetUrl.{Url}
use mirrortools.Http.{
  Crawler, Row, max_attempts, enqueue, mark_done, set_state, local_path, in_scope,
}
use mirrortools.Http.Fetch.{
  World, Answer, not_sent, no_answer, response, FetchError, status_error, local_error, transient,
  answered, fetch_to, fetch, give_up, wait_or, after_fetch, attempts, process, row_of, request_for,
  Request, or_stopped,
}
use mirrortools.Http.Keeps.{Saves, handle-kept}
use mirrortools.Http.Safety.{anything, Leads-anything}

abbrev HasAsked : ℕ → Crawler → Type 0
HasAsked n c = c.requests ≤ n

HasAsked-Saves : (w : World) (n : ℕ) → Saves w anything (HasAsked n)
unfolding enqueue mark_done
HasAsked-Saves w n = record {
  enqueued = λ u requisite c q p.
      if_holds (HasAsked n) (not requisite && not (in_scope c.scope u)) c _ (λ _. p) (λ _. p);
  marked = λ id status etag modified c p. p;
  written = λ c u local body e p. p;
  created = λ c u local e p. p;
  scoped = λ c p. tt;
}

module _ (w : World) where
  answered-HasAsked :
      (n tick : ℕ) (req : Request) (id : ℕ) (requisite : Bool) (local : Text) (row : Option Row)
      (a : Answer) (c : Crawler)
      → w.answer tick req ≡ a
      → local_path c.dest_dir req.url ≡ some local
      → HasAsked n c
      → HasAsked (suc n) (answered w id req.url requisite local row a c).1
  unfolding answered
  answered-HasAsked n tick req id requisite local row (not_sent m) c from e h = omega (arith, h)
  answered-HasAsked n tick req id requisite local row (no_answer m) c from e h = omega (arith, h)
  answered-HasAsked n tick req id requisite local row (response resp) c from e h =
      handle-kept w anything (HasAsked (suc n)) (HasAsked-Saves w (suc n)) (Leads-anything w) tick
        req resp tt from id requisite local row (record c { requests = suc c.requests }) e
        (omega (arith, h))

  fetch_to-HasAsked :
      (n id : ℕ) (u : Url) (requisite : Bool) (o : Option Text) (c : Crawler)
      → local_path c.dest_dir u ≡ o
      → HasAsked n c
      → HasAsked (suc n) (fetch_to w id u requisite o c).1
  unfolding fetch_to request_for
  fetch_to-HasAsked n id u requisite none c e h = omega (arith, h)
  fetch_to-HasAsked n id u requisite (some local) c e h =
      answered-HasAsked n c.ticks (request_for w u local (row_of id c.rows) c) id requisite local
        (row_of id c.rows) (w.answer c.ticks (request_for w u local (row_of id c.rows) c))
        (record c { ticks = suc c.ticks }) refl e h

  fetch-HasAsked :
      (n id : ℕ) (u : Url) (requisite : Bool) (c : Crawler)
      → HasAsked n c
      → HasAsked (suc n) (fetch w id u requisite c).1
  unfolding fetch
  fetch-HasAsked n id u requisite c h =
      fetch_to-HasAsked n id u requisite (local_path c.dest_dir u) c refl h

  abbrev GaveUp : ℕ → Option Crawler → Type 0
  GaveUp n none = Unit
  GaveUp n (some c) = HasAsked n c

  give_up-GaveUp :
      (n id : ℕ) (e : FetchError) (last : Bool) (c : Crawler)
      → HasAsked n c
      → GaveUp n (give_up w id e last c)
  unfolding give_up set_state
  give_up-GaveUp n id (status_error code) last c h = h
  give_up-GaveUp n id (local_error m) last c h = h
  give_up-GaveUp n id (transient m) true c h = h
  give_up-GaveUp n id (transient m) false c h = tt

  -- What the loop of process has asked, if it returns.
  abbrev Asks : ℕ → Option (Bool × Crawler) → Type 0
  Asks n none = Unit
  Asks n (some x) = HasAsked n x.1

  wait_or-Asks :
      (n : ℕ) (again : Option (Bool × Crawler)) (c : Crawler) (o : Option Crawler)
      → Asks n again
      → HasAsked n c
      → GaveUp n o
      → Asks n (wait_or w again c o)
  unfolding wait_or
  wait_or-Asks n again c none h k g =
      if_holds (Asks n) (w.interrupted c.ticks) (some (true, c)) again (λ _. k) (λ _. h)
  wait_or-Asks n again c (some given) h k g = g

  after_fetch-Asks :
      (n id : ℕ) (last : Bool) (again : Option (Bool × Crawler)) (x : Option FetchError × Crawler)
      → Asks n again
      → HasAsked n x.1
      → Asks n (after_fetch w id last again x)
  unfolding after_fetch
  after_fetch-Asks n id last again (none, c) h k = k
  after_fetch-Asks n id last again (some e, c) h k =
      if_holds (Asks n) (w.cancelled c.ticks) (some (true, c)) _ (λ _. k)
        (λ _. wait_or-Asks n again c (give_up w id e last c) h k (give_up-GaveUp n id e last c k))

  Asks-le : (n m : ℕ) (o : Option (Bool × Crawler)) → n ≤ m → Asks n o → Asks m o
  Asks-le n m none h k = tt
  Asks-le n m (some x) h k = omega (arith, h, k)

  attempts-Asks :
      (fuel attempt n id : ℕ) (u : Url) (requisite : Bool) (c : Crawler)
      → HasAsked n c
      → Asks (fuel + n) (attempts w fuel attempt id u requisite c)
  unfolding attempts
  attempts-Asks zero attempt n id u requisite c h = tt
  attempts-Asks (suc fuel) attempt n id u requisite c h =
      let tried = fetch-HasAsked n id u requisite c h in
      after_fetch-Asks (suc fuel + n) id (nat_eq attempt max_attempts) _ (fetch w id u requisite c)
        (Asks-le (fuel + suc n) (suc fuel + n) _ (omega arith) (
          attempts-Asks fuel (suc attempt) (suc n) id u requisite (fetch w id u requisite c).1
            tried))
        (omega (arith, tried))

  -- After the last attempt there are no more: what would come next does not matter.
  give_up_last : (id : ℕ) (e : FetchError) (c : Crawler) → give_up w id e true c ≢ none
  unfolding give_up
  give_up_last id (status_error code) c h = cc
  give_up_last id (local_error m) c h = cc
  give_up_last id (transient m) c h = cc

  wait_or-eq :
      (a b : Option (Bool × Crawler)) (c : Crawler) (o : Option Crawler)
      → o ≢ none
      → wait_or w a c o ≡ wait_or w b c o
  unfolding wait_or
  wait_or-eq a b c none h = absurd (h refl)
  wait_or-eq a b c (some given) h = refl

  after_fetch_last :
      (id : ℕ) (a b : Option (Bool × Crawler)) (x : Option FetchError × Crawler)
      → after_fetch w id true a x ≡ after_fetch w id true b x
  unfolding after_fetch
  after_fetch_last id a b (none, c) = refl
  after_fetch_last id a b (some e, c) =
      rw (wait_or-eq a b c (give_up w id e true c) (give_up_last id e c)) refl

  -- With enough fuel the loop does the same, whatever more there is.
  attempts_more :
      (left fuel attempt id : ℕ) (u : Url) (requisite : Bool) (c : Crawler)
      → left ≤ fuel
      → left + attempt ≡ max_attempts
      → attempts w (suc fuel) attempt id u requisite c
        ≡ attempts w (suc left) attempt id u requisite c
  unfolding attempts
  attempts_more zero fuel attempt id u requisite c h e =
      let last : nat_eq attempt max_attempts ≡ true = ground (arith, e) in
      rw last (after_fetch_last id _ _ (fetch w id u requisite c))
  attempts_more (suc left) zero attempt id u requisite c h e = absurd (omega (arith, h))
  attempts_more (suc left) (suc fuel) attempt id u requisite c h e =
      ap
        (λ (o : Option (Bool × Crawler)).
          after_fetch w id (nat_eq attempt max_attempts) o (fetch w id u requisite c))
        (attempts_more left fuel (suc attempt) id u requisite (fetch w id u requisite c).1
          (omega (arith, h)) (omega (arith, e)))

  abbrev Returns : Option (Bool × Crawler) → Type 0
  Returns none = ⊥
  Returns (some x) = Unit

  wait_or-Returns :
      (again : Option (Bool × Crawler)) (c : Crawler) (o : Option Crawler)
      → (o ≡ none → Returns again)
      → Returns (wait_or w again c o)
  unfolding wait_or
  wait_or-Returns again c none h =
      if_holds Returns (w.interrupted c.ticks) (some (true, c)) again (λ _. tt) (λ _. h refl)
  wait_or-Returns again c (some given) h = tt

  after_fetch-Returns :
      (id : ℕ) (last : Bool) (again : Option (Bool × Crawler)) (x : Option FetchError × Crawler)
      → (last ≡ false → Returns again)
      → Returns (after_fetch w id last again x)
  unfolding after_fetch
  after_fetch-Returns id last again (none, c) h = tt
  after_fetch-Returns id last again (some e, c) h =
      if_holds Returns (w.cancelled c.ticks) (some (true, c)) _ (λ _. tt)
        (λ _. wait_or-Returns again c (give_up w id e last c) (λ z. elim (Bool-cases last) [
          | inl t ↦ absurd (give_up_last id e c (ap (λ (b : Bool). give_up w id e b c) (sym t) ∙ z))
          | inr t ↦ h t
        ]))

  attempts-Returns :
      (left attempt id : ℕ) (u : Url) (requisite : Bool) (c : Crawler)
      → left + attempt ≡ max_attempts
      → Returns (attempts w (suc left) attempt id u requisite c)
  unfolding attempts
  attempts-Returns zero attempt id u requisite c e =
      after_fetch-Returns id (nat_eq attempt max_attempts) _ (fetch w id u requisite c)
        (λ z. absurd (ground (arith, e, z)))
  attempts-Returns (suc left) attempt id u requisite c e =
      after_fetch-Returns id (nat_eq attempt max_attempts) _ (fetch w id u requisite c) (λ z.
        attempts-Returns left (suc attempt) id u requisite (fetch w id u requisite c).1
          (omega (arith, e)))

  returned : (c : Crawler) (o : Option (Bool × Crawler)) → Returns o → o ≡ some (or_stopped w c o)
  unfolding or_stopped
  returned c none h = absurd h
  returned c (some x) h = refl

  asked :
      (n : ℕ) (c : Crawler) (o : Option (Bool × Crawler))
      → Returns o
      → Asks n o
      → HasAsked n (or_stopped w c o).1
  unfolding or_stopped
  asked n c none h k = absurd h
  asked n c (some x) h k = k

-- Whatever the server answers: with fuel for three attempts or for any more, the loop of process
-- returns, always the same, and has sent at most three requests for its URL.
pub attempts-process :
    (w : World) (fuel id : ℕ) (u : Url) (requisite : Bool) (c : Crawler)
    → max_attempts ≤ fuel
    → (attempts w fuel 1 id u requisite c ≡ some (process w id u requisite c))
      × ((process w id u requisite c).1.requests ≤ c.requests + max_attempts)
unfolding process
attempts-process w zero id u requisite c h = absurd (omega (arith, h))
attempts-process w (suc fuel) id u requisite c h =
    let o = attempts w max_attempts 1 id u requisite c in
    let there = attempts-Returns w 2 1 id u requisite c refl in
    (
      attempts_more w 2 fuel 1 id u requisite c (omega (arith, h)) refl ∙ returned w c o there,
      omega (
        arith,
        asked w (3 + c.requests) c o there
            (attempts-Asks w 3 1 c.requests id u requisite c (omega arith)),
      ),
    )

-- ===== src/Store/Settings/RoundTrip.antt =====
-- What is set is read back: the settings of the queue outlive the daemon.
use mathlib.Core.Path.{subst}
use mirrortools.Prelude.{
  ℕ, ◌≤◌, ◌≡◌, refl, ap, sym, ◌∙◌, Bool, true, false, ◌||◌, Option, none, some, List, [], ◌∷◌,
  if◌then◌else◌, ◌==◌, arith, Text, codes, text_has_eq, text_eq_iff, insert, lookup, lookup-insert,
  ℤ, pos, positive_or, format_nat, scan_int, max_int, scan_int-format_nat, All, Bool-cases, inl,
  inr,
}
use mirrortools.Store.Tables.{ok, Tables, statement}
use mirrortools.Store.Sql.{query}
use mirrortools.Store.Lifecycle.{sound}
use mirrortools.Store.Settings.{
  paused_key, concurrency_key, put_setting, set_queue_paused, set_queue_concurrency, QueueSettings,
  read_setting, read_settings, get_queue_config,
}

-- The key is the table's PRIMARY KEY.
abbrev pub UniqueKeys : List (Text × Text) → Type 0
UniqueKeys [] = Unit
UniqueKeys (e ∷ m) = All (λ d. (d.0 == e.0) ≡ false) m × UniqueKeys m

All-insert :
    (P : Text → Type 0) (k v : Text) (m : List (Text × Text))
    → P k
    → All (λ d. P d.0) m
    → All (λ d. P d.0) (insert k v m)
unfolding insert
All-insert P k v [] h a = (h, tt)
All-insert P k v ((j, w) ∷ m) h a = elim (Bool-cases (j == k)) [
  | inl e ↦ rw e (h, a.1)
  | inr e ↦ rw e (a.0, All-insert P k v m h a.1)
]

pub insert-UniqueKeys :
    (k v : Text) (m : List (Text × Text)) → UniqueKeys m → UniqueKeys (insert k v m)
unfolding insert
insert-UniqueKeys k v [] u = (tt, tt)
insert-UniqueKeys k v ((j, w) ∷ m) u = elim (Bool-cases (j == k)) [
  | inl e ↦ rw e (subst (λ x. All (λ d. (d.0 == x) ≡ false) m) ((text_eq_iff j k).0 e) u.0, u.1)
  | inr e ↦ rw e (
    All-insert (λ x. (x == j) ≡ false) k v m (ground (arith, e, text_eq_iff j k, text_eq_iff k j))
        u.0,
    insert-UniqueKeys k v m u.1,
  )
]

-- What a value of the first key says.
abbrev pub said : Option Text → Bool → Bool
said none b = b
said (some v) b = v == codes "1" || v == codes "true"

abbrev pub number : Option ℤ → ℤ → ℤ
number none n = n
number (some k) n = k

abbrev pub told : Option Text → ℤ → ℤ
told none n = n
told (some v) n = number (scan_int v) n

absent : (k : Text) (m : List (Text × Text)) → All (λ d. (d.0 == k) ≡ false) m → lookup k m ≡ none
unfolding lookup
absent k [] h = refl
absent k ((j, w) ∷ m) h = ground (arith, h.0, absent k m h.1)

-- An entry's key does not come again.
gone :
    (a k : Text) (m : List (Text × Text))
    → (k == a) ≡ true
    → All (λ d. (d.0 == k) ≡ false) m
    → lookup a m ≡ none
gone a k m e h = absent a m (subst (λ x. All (λ d. (d.0 == x) ≡ false) m) ((text_eq_iff k a).0 e) h)

keys_differ : (k : Text) → (k == paused_key) ≡ true → (k == concurrency_key) ≡ false
keys_differ k e =
    subst (λ x. (x == concurrency_key) ≡ false) (sym ((text_eq_iff k paused_key).0 e)) refl

-- The loop over the rows comes to a lookup of each key.
read_settings-lookup :
    (s : QueueSettings) (m : List (Text × Text))
    → UniqueKeys m
    → ((read_settings s m).paused ≡ said (lookup paused_key m) s.paused)
      × ((read_settings s m).concurrency ≡ told (lookup concurrency_key m) s.concurrency)
unfolding read_settings read_setting lookup
read_settings-lookup s [] u = (refl, refl)
read_settings-lookup s ((k, v) ∷ m) u =
    let ih = read_settings-lookup (read_setting k v s) m u.1 in
    elim (Bool-cases (k == paused_key)) [
      | inl e ↦
          let none_left = gone paused_key k m e u.0 in
          let other = keys_differ k e in
          (ground (arith, ih.0, e, none_left, other), ground (arith, ih.1, e, none_left, other))
      | inr e ↦ elim (Bool-cases (k == concurrency_key)) [
        | inl c ↦
            let none_left = gone concurrency_key k m c u.0 in
            (ground (arith, ih.0, e, c), ground (arith, ih.1, e, c, none_left))
        | inr c ↦ (ground (arith, ih.0, e, c), ground (arith, ih.1, e, c))
      ]
    ]

-- GetQueueConfig, in terms of what the table holds under its two keys.
abbrev pub stored_paused : Tables → Bool
stored_paused t = said (lookup paused_key t.settings) false

abbrev pub stored_concurrency : Tables → ℕ
stored_concurrency t = positive_or 1 (told (lookup concurrency_key t.settings) (pos 2))

pub get_queue_config-eq :
    (t : Tables)
    → UniqueKeys t.settings
    → (get_queue_config (sound t)).0 ≡ ok (stored_paused t, stored_concurrency t)
unfolding get_queue_config query statement
get_queue_config-eq t u =
    let k = read_settings-lookup (record { paused = false; concurrency = pos 2 }) t.settings u in
    rw (k.0, k.1)

positive_or_again : (n : ℤ) → positive_or 1 (pos (positive_or 1 n)) ≡ positive_or 1 n
positive_or_again n = ground arith

said_flag : (b : Bool) → said (some (if b then codes "1" else codes "0")) false ≡ b
said_flag true = refl
said_flag false = refl

module _ (t : Tables) (u : UniqueKeys t.settings) where
  -- Over settings with unique keys, while the driver does not fail: a concurrency that fits an int
  -- is read back as it was set, one below one as one, and whether the queue is paused is as it
  -- was.
  pub get-set_queue_concurrency :
      (n : ℤ)
      → positive_or 1 n ≤ max_int
      → (get_queue_config (sound (set_queue_concurrency n (sound t)).1.tables)).0
        ≡ ok (stored_paused t, positive_or 1 n)
  unfolding set_queue_concurrency put_setting statement
  get-set_queue_concurrency n h =
      let v = format_nat (positive_or 1 n) in
      let after = record t { settings = insert concurrency_key v t.settings } in
      get_queue_config-eq after (insert-UniqueKeys concurrency_key v t.settings u)
      ∙ rw
          (
            lookup-insert concurrency_key paused_key v t.settings,
            lookup-insert concurrency_key concurrency_key v t.settings,
            scan_int-format_nat (positive_or 1 n) h,
          )
          (ap (λ k. ok (stored_paused t, k)) (positive_or_again n))

  -- Over settings with unique keys, while the driver does not fail: a pause or its end is read
  -- back as it was set, and the concurrency is as it was.
  pub get-set_queue_paused :
      (b : Bool)
      → (get_queue_config (sound (set_queue_paused b (sound t)).1.tables)).0
        ≡ ok (b, stored_concurrency t)
  unfolding set_queue_paused put_setting statement
  get-set_queue_paused b =
      let v = (if b then codes "1" else codes "0") in
      let after = record t { settings = insert paused_key v t.settings } in
      get_queue_config-eq after (insert-UniqueKeys paused_key v t.settings u)
      ∙ rw
          (
            lookup-insert paused_key paused_key v t.settings,
            lookup-insert paused_key concurrency_key v t.settings,
          )
          (ap (λ k. ok (k, stored_concurrency t)) (said_flag b))

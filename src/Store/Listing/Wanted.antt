-- ===== src/Store/Listing/Wanted.antt =====
-- Which rows a filter asks for, and in which order: the criteria and the order of ListJobs, one by
-- one.
use mirrortools.Prelude.{
  ◌≤◌, ◌≡◌, ◌≢◌, refl, Bool, true, false, ◌&&◌, ◌||◌, List, [], ◌∷◌, ◌++◌, ◌==◌, arith, Text, codes,
  text_has_eq, text_eq_iff, nat_eq, slash, trim_right, has_infix, contains, All, All-impl, InOrder,
  Bool-cases, ◌⊎◌, inl, inr, if◌then◌else◌, text_lt, ltb,
}
use mirrortools.Job.{State, state_has_eq}
use mirrortools.Store.Tables.{Row}
use mirrortools.Store.Batch.{state_in}
use mirrortools.Store.Listing.{JobFilter, like, site_matches, row_matches, listed_before}

-- A site that is asked for: the same but for slashes at the end, and with a scheme before it if
-- the filter gives none.
abbrev pub IsSite : Text → Text → Type 0
IsSite clean site =
    (site ≡ clean)
    ⊎ ((has_infix clean (codes "://") ≡ false)
        × ((site ≡ codes "https://" ++ clean)
            ⊎ ((site ≡ codes "http://" ++ clean) ⊎ (like (codes "%://" ++ clean) site ≡ true))))

-- A row that the filter asks for, by each criterion that is not empty.
abbrev pub IsWanted : JobFilter → Row → Type 0
IsWanted f r =
    ((f.states ≡ []) ⊎ (contains f.states r.state ≡ true))
    × ((f.method ≡ []) ⊎ (r.method ≡ f.method))
    × ((f.site ≡ []) ⊎ IsSite (trim_right (nat_eq slash) f.site) r.site)

or_true : (a b : Bool) → (a || b) ≡ true → (a ≡ true) ⊎ (b ≡ true)
or_true true b h = inl refl
or_true false b h = inr h

or_left : (a b : Bool) → a ≡ true → (a || b) ≡ true
or_left a b h = ground (arith, h)

or_right : (a b : Bool) → b ≡ true → (a || b) ≡ true
or_right a b h = ground (arith, h)

and_true : (a b c : Bool) → (a && b && c) ≡ true → (a ≡ true) × (b ≡ true) × (c ≡ true)
and_true a b c h = (ground (arith, h), ground (arith, h), ground (arith, h))

-- The test on the site, on the results of its comparisons.
site_true :
    (scheme a b c d : Bool)
    → (if scheme then a else a || b || c || d) ≡ true
    → (a ≡ true) ⊎ ((scheme ≡ false) × ((b ≡ true) ⊎ ((c ≡ true) ⊎ (d ≡ true))))
site_true scheme true b c d h = inl refl
site_true true false b c d h = cc
site_true false false true c d h = inr (refl, inl refl)
site_true false false false true d h = inr (refl, inr (inl refl))
site_true false false false false d h = inr (refl, inr (inr h))

site_false :
    (scheme a b c d : Bool)
    → (a ≡ true) ⊎ ((scheme ≡ false) × ((b ≡ true) ⊎ ((c ≡ true) ⊎ (d ≡ true))))
    → (if scheme then a else a || b || c || d) ≡ true
site_false scheme a b c d (inl h) = ground (arith, h)
site_false scheme a b c d (inr (s, inl h)) = ground (arith, s, h)
site_false scheme a b c d (inr (s, inr (inl h))) = ground (arith, s, h)
site_false scheme a b c d (inr (s, inr (inr h))) = ground (arith, s, h)

module _ (wanted site : Text) where
  abbrev bare : Text
  bare = trim_right (nat_eq slash) wanted

  IsSite-matched : site_matches wanted site ≡ true → IsSite (trim_right (nat_eq slash) wanted) site
  unfolding site_matches
  IsSite-matched h =
      elim (site_true (has_infix bare (codes "://")) (site == bare)
        (site == codes "https://" ++ bare) (site == codes "http://" ++ bare)
        (like (codes "%://" ++ bare) site) h) [
          | inl e ↦ inl ((text_eq_iff _ _).0 e)
          | inr (s, inl e) ↦ inr (s, inl ((text_eq_iff _ _).0 e))
          | inr (s, inr (inl e)) ↦ inr (s, inr (inl ((text_eq_iff _ _).0 e)))
          | inr (s, inr (inr e)) ↦ inr (s, inr (inr e))
        ]

  matched-IsSite : IsSite (trim_right (nat_eq slash) wanted) site → site_matches wanted site ≡ true
  unfolding site_matches
  matched-IsSite h =
      site_false (has_infix bare (codes "://")) (site == bare) (site == codes "https://" ++ bare)
        (site == codes "http://" ++ bare) (like (codes "%://" ++ bare) site)
        (elim h [
          | inl e ↦ inl ((text_eq_iff _ _).1 e)
          | inr (s, inl e) ↦ inr (s, inl ((text_eq_iff _ _).1 e))
          | inr (s, inr (inl e)) ↦ inr (s, inr (inl ((text_eq_iff _ _).1 e)))
          | inr (s, inr (inr e)) ↦ inr (s, inr (inr e))
        ])

state_wanted :
    (states : List State) (r : Row)
    → state_in states r ≡ true
    → (states ≡ []) ⊎ (contains states r.state ≡ true)
state_wanted [] r h = inl refl
state_wanted (s ∷ ss) r h = inr h

wanted_state :
    (states : List State) (r : Row)
    → (states ≡ []) ⊎ (contains states r.state ≡ true)
    → state_in states r ≡ true
wanted_state [] r h = refl
wanted_state (s ∷ ss) r (inl e) = cc
wanted_state (s ∷ ss) r (inr e) = e

-- The WHERE clause holds of the rows that the filter asks for.
pub row_matches-IsWanted : (f : JobFilter) (r : Row) → row_matches f r ≡ true → IsWanted f r
unfolding row_matches
row_matches-IsWanted f r h =
    let (s, m, t) =
      and_true (state_in f.states r) (f.method == [] || r.method == f.method)
        (f.site == [] || site_matches f.site r.site) h in
    (
      state_wanted f.states r s,
      elim (or_true (f.method == []) (r.method == f.method) m) [
        | inl e ↦ inl ((text_eq_iff f.method []).0 e)
        | inr e ↦ inr ((text_eq_iff r.method f.method).0 e)
      ],
      elim (or_true (f.site == []) (site_matches f.site r.site) t) [
        | inl e ↦ inl ((text_eq_iff f.site []).0 e)
        | inr e ↦ inr (IsSite-matched f.site r.site e)
      ],
    )

pub IsWanted-row_matches : (f : JobFilter) (r : Row) → IsWanted f r → row_matches f r ≡ true
unfolding row_matches
IsWanted-row_matches f r (s, m, t) =
    let a = wanted_state f.states r s in
    let b : (f.method == [] || r.method == f.method) ≡ true = elim m [
      | inl e ↦ or_left _ _ ((text_eq_iff f.method []).1 e)
      | inr e ↦ or_right _ _ ((text_eq_iff r.method f.method).1 e)
    ] in
    let c : (f.site == [] || site_matches f.site r.site) ≡ true = elim t [
      | inl e ↦ or_left _ _ ((text_eq_iff f.site []).1 e)
      | inr e ↦ or_right _ _ (matched-IsSite f.site r.site e)
    ] in
    ground (arith, a, b, c)

-- Row a may come before row b: by site, path and id in a tree, else the newer one first.
abbrev pub MayPrecede : JobFilter → Row → Row → Type 0
MayPrecede f a b =
    (f.order_by ≢ codes "tree" → b.id ≤ a.id)
    × (f.order_by ≡ codes "tree"
        → (text_lt b.site a.site ≡ false)
          × (text_lt a.site b.site ≡ false → text_lt b.path a.path ≡ false)
          × (text_lt a.site b.site ≡ false → text_lt a.path b.path ≡ false → a.id ≤ b.id))

-- Each row may come before those after it.
abbrev pub IsArranged : JobFilter → List Row → Type 0
IsArranged f [] = Unit
IsArranged f (a ∷ rows) = All (MayPrecede f a) rows × IsArranged f rows

tree_first :
    (s p i s' p' : Bool)
    → (if s then true else if s' then false else if p then true else if p' then false else i)
      ≡ false
    → (s ≡ false) × (s' ≡ false → p ≡ false) × (s' ≡ false → p' ≡ false → i ≡ false)
tree_first s p i s' p' h =
    (ground (arith, h), (λ a. ground (arith, h, a)), (λ a b. ground (arith, h, a, b)))

MayPrecede-listed : (f : JobFilter) (a b : Row) → listed_before f b a ≡ false → MayPrecede f a b
unfolding listed_before
MayPrecede-listed f a b h = elim (Bool-cases (f.order_by == codes "tree")) [
  | inl t ↦
      let (x, y, z) =
        tree_first (text_lt b.site a.site) (text_lt b.path a.path) (ltb b.id a.id)
          (text_lt a.site b.site) (text_lt a.path b.path) (rw t at h) in
      (
        (λ n. absurd (n ((text_eq_iff f.order_by (codes "tree")).0 t))),
        (λ _. (x, y, (λ u v. ground (arith, z u v)))),
      )
  | inr t ↦ (
    (λ _. let newer : ltb a.id b.id ≡ false = rw t at h in ground (arith, newer)),
    (λ e. ground (arith, t, e, text_eq_iff f.order_by (codes "tree"))),
  )
]

pub InOrder-IsArranged :
    (f : JobFilter) (rows : List Row) → InOrder (listed_before f) rows → IsArranged f rows
InOrder-IsArranged f [] h = tt
InOrder-IsArranged f (a ∷ rows) h = (
  All-impl (λ b. listed_before f b a ≡ false) (MayPrecede f a) rows (MayPrecede-listed f a) h.0,
  InOrder-IsArranged f rows h.1,
)

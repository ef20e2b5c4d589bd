-- ===== src/Server/Filled.antt =====
-- What a request is like that handleSubmitJob queues.
use mirrortools.FilePaths.{join, is_local}
use mathlib.Core.Path.{subst}
use mirrortools.Prelude.{
  ◌≡◌, ◌≢◌, refl, sym, ap, ◌∙◌, ◌⊎◌, inl, inr, Bool, true, false, not, Option, none, some, [], ◌∷◌,
  if◌then◌else◌, ◌==◌, arith, Text, text_has_eq, text_eq_iff, lookup, lookup-insert, if_holds,
  Option-cases, some_eq, Bool-cases, ◌&&◌, codes,
}
use mirrortools.Job.{Flags, SubmitRequest, validate}
use mirrortools.Registry.{detect, get, Method}
use mirrortools.Server.{Server}
use mirrortools.Server.Submit.{
  Completed, complete, refuse, completed_request, with_dest, with_method, with_flags, fill_dest,
  detected_method, is_registered, default_dest, merge_flags, set_default, section_flags,
  section_dest, subdir_of,
}

abbrev pub or_else : Option Text → Option Text → Option Text
or_else none b = b
or_else (some a) b = some a

lookup-set_default :
    (k v j : Text) (flags : Flags) (o : Option Text)
    → lookup k flags ≡ o
    → lookup j (set_default k v flags o)
      ≡ or_else (lookup j flags) (if k == j then some v else none)
unfolding set_default
lookup-set_default k v j flags none e =
    ground (arith, lookup-insert k j v flags, text_eq_iff k j, e, Option-cases (lookup j flags))
lookup-set_default k v j flags (some old) e =
    ground (arith, text_eq_iff k j, e, Option-cases (lookup j flags))

or_else_assoc : (a b c : Option Text) → or_else (or_else a b) c ≡ or_else a (or_else b c)
or_else_assoc none b c = refl
or_else_assoc (some a) b c = refl

first_default :
    (k v j : Text) (rest : Flags)
    → or_else (if k == j then some v else none) (lookup j rest) ≡ lookup j ((k, v) ∷ rest)
unfolding lookup
first_default k v j rest = ground arith

-- A flag of the request stays, and any other comes from the section.
lookup-merge_flags :
    (j : Text) (defaults flags : Flags)
    → lookup j (merge_flags defaults flags) ≡ or_else (lookup j flags) (lookup j defaults)
unfolding merge_flags
lookup-merge_flags j [] flags = unfold lookup in ground (arith, Option-cases (lookup j flags))
lookup-merge_flags j ((k, v) ∷ defaults) flags =
    lookup-merge_flags j defaults (set_default k v flags (lookup k flags))
    ∙ ap (λ (o : Option Text). or_else o (lookup j defaults))
        (lookup-set_default k v j flags (lookup k flags) refl)
    ∙ or_else_assoc (lookup j flags) (if k == j then some v else none) (lookup j defaults)
    ∙ ap (or_else (lookup j flags)) (first_default k v j defaults)

-- The directory of the method below the default one, if the method names a local path.
abbrev pub IsBelowDefault : Text → Text → Text → Type 0
IsBelowDefault base sub dest =
    ((sub ≢ []) × (is_local sub ≡ true) × (dest ≡ join (base ∷ sub ∷ [])))
    ⊎ (((sub ≡ []) ⊎ (is_local sub ≡ false)) × (dest ≡ base))

-- Where a job goes whose request does not say: the directory of the method's section, or else the
-- default one, which is configured, or a path below it.
abbrev pub IsDefault : Text → Text → Text → Text → Type 0
IsDefault section base sub dest =
    ((section ≢ []) × (dest ≡ section))
    ⊎ ((section ≡ []) × (base ≢ []) × IsBelowDefault base sub dest)

-- Where a job of a request goes: where the request says, or else by default.
abbrev pub IsDestination : Server → SubmitRequest → Text → Text → Type 0
IsDestination s req method dest =
    ((req.dest_dir ≢ []) × (dest ≡ req.dest_dir))
    ⊎ ((req.dest_dir ≡ [])
        × IsDefault (section_dest (lookup method s.cfg.methods)) s.cfg.dest_dir
            (subdir_of req.source (get method s.methods)) dest)

-- The request that is queued: the same source, with the flags of the request before those of the
-- section of its method.
abbrev pub IsFilled : Server → SubmitRequest → SubmitRequest → Type 0
IsFilled s req filled =
    (filled.source ≡ req.source)
    × (filled.priority ≡ req.priority)
    × ((j : Text)
        → lookup j filled.flags
          ≡ or_else (lookup j req.flags)
              (lookup j (section_flags (lookup filled.method s.cfg.methods))))
    × IsDestination s req filled.method filled.dest_dir

-- The name of a method that was detected, but git where that is http and the source is a
-- repository.
abbrev pub IsDetected : (Text → Bool) → Text → Option Method → Text → Type 0
IsDetected probe source found method =
    (m : Method) × (found ≡ some m)
    × (((m.name ≡ codes "http") × (probe source ≡ true) × (method ≡ codes "git"))
        ⊎ (((m.name ≢ codes "http") ⊎ (probe source ≡ false)) × (method ≡ m.name)))

-- The method of a request is one that is registered, or else the one that its source is for.
abbrev pub IsMethod : (Text → Bool) → Server → SubmitRequest → Text → Type 0
IsMethod probe s req method =
    ((req.method ≢ []) × (method ≡ req.method) × (is_registered (get method s.methods) ≡ true))
    ⊎ ((req.method ≡ []) × IsDetected probe req.source (detect req.source s.methods) method)

detected_method-IsDetected :
    (probe : Text → Bool) (source method : Text) (o : Option Method)
    → detected_method probe source o ≡ some method
    → IsDetected probe source o method
unfolding detected_method
detected_method-IsDetected probe source method none e = cc
detected_method-IsDetected probe source method (some m) e =
    elim (Bool-cases (m.name == codes "http")) [
      | inl t ↦ elim (Bool-cases (probe source)) [
        | inl p ↦ (
          m,
          refl,
          inl ((text_eq_iff m.name (codes "http")).0 t, p, sym (some_eq (rw (t, p) at e))),
        )
        | inr p ↦ (m, refl, inr (inr p, sym (some_eq (rw (t, p) at e))))
      ]
      | inr t ↦ (
        m,
        refl,
        inr (
          inl (λ z. ground (arith, t, z, text_eq_iff m.name (codes "http"))),
          sym (some_eq (rw t at e)),
        ),
      )
    ]

below_default :
    (base sub dest : Text)
    → (if not (sub == []) && is_local sub then join (base ∷ sub ∷ []) else base) ≡ dest
    → IsBelowDefault base sub dest
below_default base sub dest e = elim (Bool-cases (sub == [])) [
  | inl t ↦ inr (inl ((text_eq_iff sub []).0 t), sym (rw t at e))
  | inr t ↦ elim (Bool-cases (is_local sub)) [
    | inl l ↦ inl ((λ z. ground (arith, t, z, text_eq_iff sub [])), l, sym (rw (t, l) at e))
    | inr l ↦ inr (inr l, sym (rw (t, l) at e))
  ]
]

first_configured :
    (section base below dest : Text)
    → (if not (section == []) then some section else if not (base == []) then some below else none)
      ≡ some dest
    → ((section ≢ []) × (dest ≡ section)) ⊎ ((section ≡ []) × (base ≢ []) × (below ≡ dest))
first_configured section base below dest e = elim (Bool-cases (section == [])) [
  | inr t ↦ inl ((λ z. ground (arith, t, z, text_eq_iff section [])), sym (some_eq (rw t at e)))
  | inl t ↦ elim (Bool-cases (base == [])) [
    | inl b ↦ let never = rw (t, b) at e in cc
    | inr b ↦ inr (
      (text_eq_iff section []).0 t,
      (λ z. ground (arith, b, z, text_eq_iff base [])),
      some_eq (rw (t, b) at e),
    )
  ]
]

default_dest-IsDefault :
    (section base sub dest : Text)
    → default_dest section base sub ≡ some dest
    → IsDefault section base sub dest
unfolding default_dest
default_dest-IsDefault section base sub dest e =
    elim (first_configured section base
      (if not (sub == []) && is_local sub then join (base ∷ sub ∷ []) else base) dest e) [
        | inl here ↦ inl here
        | inr (none_here, full, there) ↦ inr (none_here, full, below_default base sub dest there)
      ]

abbrev Completes : (SubmitRequest → Type 0) → Completed → Type 0
Completes P (complete req) = P req
Completes P (refuse r) = Unit

Completes-impl :
    (P Q : SubmitRequest → Type 0) (c : Completed)
    → ((req : SubmitRequest) → P req → Q req)
    → Completes P c
    → Completes Q c
Completes-impl P Q (complete req) f h = f req h
Completes-impl P Q (refuse r) f h = tt

empty_text : (t : Text) → not (t == []) ≡ false → t ≡ []
empty_text t h = ground (arith, h, text_eq_iff t [])

full_text : (t : Text) → not (t == []) ≡ true → t ≢ []
full_text t h e = ground (arith, h, e, text_eq_iff t [])

abbrev Fills : Server → SubmitRequest → SubmitRequest → Type 0
Fills s req filled = (filled.method ≡ req.method) × IsFilled s req filled

fill_dest-Fills :
    (s : Server) (req : SubmitRequest) (o : Option Text)
    → req.dest_dir ≡ []
    → default_dest
        (section_dest (lookup req.method s.cfg.methods))
        s.cfg.dest_dir
        (subdir_of req.source (get req.method s.methods))
      ≡ o
    → Completes (Fills s req) (fill_dest (with_flags s req) o)
unfolding fill_dest with_flags
fill_dest-Fills s req none h d = tt
fill_dest-Fills s req (some dest) h d = (
  refl,
  (
    refl,
    refl,
    (λ j. lookup-merge_flags j (section_flags (lookup req.method s.cfg.methods)) req.flags),
    inr (h, default_dest-IsDefault _ _ _ dest d),
  ),
)

with_dest-Fills : (s : Server) (req : SubmitRequest) → Completes (Fills s req) (with_dest s req)
unfolding with_dest
with_dest-Fills s req =
    if_holds (Completes (Fills s req)) (not (req.dest_dir == [])) _ _
      (λ t.
        unfold with_flags in
        (
          refl,
          (
            refl,
            refl,
            (λ j. lookup-merge_flags j (section_flags (lookup req.method s.cfg.methods)) req.flags),
            inl (full_text req.dest_dir t, refl),
          ),
        ))
      (λ t. fill_dest-Fills s req _ (empty_text req.dest_dir t) refl)

abbrev pub IsSubmitted : (Text → Bool) → Server → SubmitRequest → SubmitRequest → Type 0
IsSubmitted probe s req filled = IsMethod probe s req filled.method × IsFilled s req filled

with_method-IsSubmitted :
    (probe : Text → Bool) (s : Server) (req : SubmitRequest) (o : Option Text)
    → req.method ≡ []
    → detected_method probe req.source (detect req.source s.methods) ≡ o
    → Completes (IsSubmitted probe s req) (with_method s req o)
unfolding with_method
with_method-IsSubmitted probe s req none h d = tt
with_method-IsSubmitted probe s req (some name) h d =
    Completes-impl (Fills s (record req { method = name })) (IsSubmitted probe s req)
      (with_dest s (record req { method = name }))
      (λ filled f. (
        inr (
          h,
          subst (IsDetected probe req.source (detect req.source s.methods)) (sym f.0)
              (detected_method-IsDetected probe req.source name (detect req.source s.methods) d),
        ),
        (f.1.0, f.1.1, f.1.2, f.1.3),
      ))
      (with_dest-Fills s (record req { method = name }))

named-IsSubmitted :
    (probe : Text → Bool) (s : Server) (req : SubmitRequest)
    → req.method ≢ []
    → is_registered (get req.method s.methods) ≡ true
    → Completes (IsSubmitted probe s req) (with_dest s req)
named-IsSubmitted probe s req h r =
    Completes-impl (Fills s req) (IsSubmitted probe s req) (with_dest s req)
      (λ filled f. (inl (h, f.0, ap (λ (m : Text). is_registered (get m s.methods)) f.0 ∙ r), f.1))
      (with_dest-Fills s req)

-- A request that is queued has the source and the priority of the request as it came; its own
-- method, which is registered, or the one detected for its source, but git where that is http and
-- the source answers as a repository; the flags of the request before those of the method's
-- section; and the destination of the request, else of the section, else the default, which is not
-- empty, with the method's directory below it if that is a local path.
pub completed_request-IsSubmitted :
    (probe : Text → Bool) (s : Server) (req filled : SubmitRequest)
    → completed_request probe s req ≡ complete filled
    → IsSubmitted probe s req filled
completed_request-IsSubmitted probe s req filled e = subst (Completes (IsSubmitted probe s req)) e (
    unfold completed_request in
    if_holds (Completes (IsSubmitted probe s req)) (not (validate req)) _ _ (λ _. tt)
      (λ _.
        if_holds (Completes (IsSubmitted probe s req)) (req.method == []) _ _
          (λ t. with_method-IsSubmitted probe s req _ ((text_eq_iff req.method []).0 t) refl)
          (λ t.
            if_holds (Completes (IsSubmitted probe s req))
              (is_registered (get req.method s.methods)) _ _
              (λ r.
                named-IsSubmitted probe s req (λ z. ground (arith, t, z, text_eq_iff req.method []))
                  r)
              (λ _. tt))))

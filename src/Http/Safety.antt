-- ===== src/Http/Safety.antt =====
-- What a crawl of any web of pages leaves alone: files outside the hosts' directories, and links
-- outside the scope.

use mirrortools.Prelude.{
  ℕ, ◌≡◌, ◌≢◌, refl, sym, ap, ◌∙◌, Bool, true, false, ◌&&◌, not, List, [], ◌∷◌, ◌==◌, nat_has_eq,
  some, arith, Text, text_has_eq, text_eq_iff, insert, All, if_holds, Bool-cases, inl, inr, ◌++◌,
}
use mirrortools.FilePaths.Below.{IsWithin}
use mirrortools.NetUrl.{Url, NetUrl}
use mirrortools.Http.{
  Crawler, Row, Scope, in_scope, local_path, enqueue, mark_done, set_state, upsert, update_row,
  tmp_suffix,
}
use mirrortools.Http.Paths.{local_path-IsWithin}
use mirrortools.Http.Fetch.{World}
use mirrortools.Http.Crawl.{run, End}
use mirrortools.Http.Keeps.{IsKept, Leads, Web}
use mirrortools.Http.Runs.{run-kept}

-- Any URL, in any scope.
abbrev pub anything : Web
anything = record { asked = λ u. Unit; within = λ s. Unit; led_to = λ u. Unit }

All-anything : (urls : List Url) → All anything.led_to urls
All-anything [] = tt
All-anything (u ∷ urls) = (tt, All-anything urls)

pub Leads-anything : (w : World) → Leads w anything
Leads-anything w = record {
  redirects = λ n req resp loc a e f. tt;
  links = λ n req resp c a s e. All-anything _;
  requisites = λ n req resp c a s e. All-anything _;
}

-- A file at the directory of some host in the destination, or below it.
abbrev pub IsContained : Text → Text × Text → Type 0
IsContained dest_dir file = (host : Text) × IsWithin dest_dir host file.0

-- A temporary file, named for a path at the directory of some host or below it.
abbrev pub IsTemporary : Text → Text → Type 0
IsTemporary dest_dir temp =
    (host : Text) × (p : Text) × IsWithin dest_dir host p × (temp ≡ p ++ tmp_suffix)

All-insert :
    (P : Text × Text → Type 0) (key new : Text) (files : List (Text × Text))
    → P (key, new)
    → All P files
    → All P (insert key new files)
unfolding insert
All-insert P key new [] h k = (h, tt)
All-insert P key new ((x, old) ∷ rest) h k =
    if_holds (All P) (x == key) _ _ (λ _. (h, k.1)) (λ _. (k.0, All-insert P key new rest h k.1))

abbrev FilesIn : Text → Crawler → Type 0
FilesIn dest_dir c =
    (c.dest_dir ≡ dest_dir)
    × All (IsContained dest_dir) c.files
    × All (IsTemporary dest_dir) c.temps

saved-IsWithin :
    (dest_dir local : Text) (u : Url) (c : Crawler)
    → dest_dir ≢ []
    → local_path c.dest_dir u ≡ some local
    → c.dest_dir ≡ dest_dir
    → IsWithin dest_dir u.host local
saved-IsWithin dest_dir local u c h e d =
    (local_path-IsWithin dest_dir local u h (ap (λ (x : Text). local_path x u) (sym d) ∙ e)).0

FilesIn-IsKept :
    (w : World) (dest_dir : Text) → dest_dir ≢ [] → IsKept w anything (FilesIn dest_dir)
unfolding enqueue mark_done set_state
FilesIn-IsKept w dest_dir h = record {
  enqueued = λ u requisite c q p.
      if_holds (FilesIn dest_dir) (not requisite && not (in_scope c.scope u)) c _ (λ _. p) (λ _. p);
  marked = λ id status etag modified c p. p;
  stated = λ id s status message c e p. p;
  ticked = λ c p. p;
  requested = λ c p. p;
  counted = λ c p. p;
  written = λ c u local body e p. (
    p.0,
    All-insert (IsContained dest_dir) local body c.files
        (u.host, saved-IsWithin dest_dir local u c h e p.0) p.1,
    p.2,
  );
  created = λ c u local e p.
      (p.0, p.1, ((u.host, local, saved-IsWithin dest_dir local u c h e p.0, refl), p.2));
  scoped = λ c p. tt;
}

-- Whatever the servers answer, and whenever the context is cancelled: after a run that ends, into
-- a destination that is not empty, from a crawler whose files are so, each file written is the
-- directory of a host in the destination, or one of names below it with no step up, and each
-- temporary file is named for such a path.
pub run-IsContained :
    (w : World) (fuel : ℕ) (c after : Crawler) (e : End)
    → c.dest_dir ≢ []
    → All (IsContained c.dest_dir) c.files
    → All (IsTemporary c.dest_dir) c.temps
    → run w fuel c ≡ some (e, after)
    → All (IsContained c.dest_dir) after.files × All (IsTemporary c.dest_dir) after.temps
run-IsContained w fuel c after e h files temps eq =
    let kept =
      run-kept w anything (FilesIn c.dest_dir) (FilesIn-IsKept w c.dest_dir h) (Leads-anything w)
        fuel c after e (λ u. tt) eq (refl, files, temps) in
    (kept.1, kept.2)

-- A row that is no requisite is of a URL in scope.
abbrev pub IsInScope : NetUrl → Scope → Row → Type 0
IsInScope net scope r =
    r.requisite ≡ false → (u : Url) × (net.show u ≡ r.url) × (in_scope scope u ≡ true)

abbrev LinksIn : NetUrl → Scope → Crawler → Type 0
LinksIn net scope c = (c.scope ≡ scope) × All (IsInScope net scope) c.rows

upsert-IsInScope :
    (net : NetUrl) (scope : Scope) (last : ℕ) (u : Url) (requisite : Bool) (rows : List Row)
    → (requisite ≡ false → in_scope scope u ≡ true)
    → All (IsInScope net scope) rows
    → All (IsInScope net scope) (upsert last (net.show u) requisite rows)
unfolding upsert
upsert-IsInScope net scope last u requisite [] h k = ((λ e. (u, refl, h e)), tt)
upsert-IsInScope net scope last u requisite (r ∷ rows) h k =
    elim (Bool-cases (r.url == net.show u)) [
      | inl e ↦ rw e (
        (λ z. elim (Bool-cases r.requisite) [
          | inl t ↦ (u, sym ((text_eq_iff r.url (net.show u)).0 e), h (ground (arith, z, t)))
          | inr t ↦ k.0 t
        ]),
        k.1,
      )
      | inr e ↦ rw e (k.0, upsert-IsInScope net scope r.id u requisite rows h k.1)
    ]

All-update_row :
    (P : Row → Type 0) (id : ℕ) (f : Row → Row) (rows : List Row)
    → ((r : Row) → P r → P (f r))
    → All P rows
    → All P (update_row id f rows)
unfolding update_row
All-update_row P id f [] h k = tt
All-update_row P id f (r ∷ rows) h k =
    (if_holds P (r.id == id) (f r) r (λ _. h r k.0) (λ _. k.0), All-update_row P id f rows h k.1)

LinksIn-IsKept : (w : World) (scope : Scope) → IsKept w anything (LinksIn w.net scope)
unfolding enqueue mark_done set_state
LinksIn-IsKept w scope = record {
  enqueued = λ u requisite c q p.
      if_holds (LinksIn w.net scope) (not requisite && not (in_scope c.scope u)) c _ (λ _. p)
        (λ e. (
          p.0,
          upsert-IsInScope w.net scope 0 u requisite c.rows
              (λ z. (ap (λ (s : Scope). in_scope s u) (sym p.0)) ∙ ground (arith, e, z)) p.1,
        ));
  marked = λ id status etag modified c p.
      (p.0, All-update_row (IsInScope w.net scope) id _ c.rows (λ r i. i) p.1);
  stated = λ id s status message c e p.
      (p.0, All-update_row (IsInScope w.net scope) id _ c.rows (λ r i. i) p.1);
  ticked = λ c p. p;
  requested = λ c p. p;
  counted = λ c p. p;
  written = λ c u local body e p. p;
  created = λ c u local e p. p;
  scoped = λ c p. tt;
}

-- Whatever the servers answer: if the rows of a crawl's table that are no requisites are of URLs
-- in the crawl's scope, as in an empty one, then so they are when a run ends.
pub run-IsInScope :
    (w : World) (fuel : ℕ) (c after : Crawler) (e : End)
    → All (IsInScope w.net c.scope) c.rows
    → run w fuel c ≡ some (e, after)
    → All (IsInScope w.net c.scope) after.rows
run-IsInScope w fuel c after e rows eq =
    (run-kept w anything (LinksIn w.net c.scope) (LinksIn-IsKept w c.scope) (Leads-anything w) fuel
      c after e (λ u. tt) eq (refl, rows)).1

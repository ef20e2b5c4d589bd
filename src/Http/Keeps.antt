-- ===== src/Http/Keeps.antt =====
-- What each change of the crawler keeps, a whole run keeps: fetch, save, process and run only
-- enqueue, mark rows, count, and write files where localPath says.

use mirrortools.Prelude.{
  ℕ, suc, ◌≡◌, refl, Bool, true, false, ◌||◌, not, List, [], ◌∷◌, ◌==◌, nat_eq, nat_has_eq, leb,
  Option, none, some, Text, text_has_eq, insert, All, if_holds, ◌/◌,
}
use mirrortools.NetUrl.{Url}
use mirrortools.Http.{
  Crawler, Row, UrlState, local_path, enqueue, mark_done, set_state, normalize, is_pending,
  is_redirect, Scope,
}
use mirrortools.Http.DirListing.{Extracted}
use mirrortools.Http.Fetch.{
  World, Response, Request, response, Disk, saved, mkdir_failed, create_failed, copy_failed,
  close_failed, rename_failed, FetchError, enqueue_all, enqueue_entries, renamed, extracted, keep,
  save, redirect, handle, with_temp,
}

-- A part of the web: the URLs that are asked for, the scopes they are asked in, and the URLs that
-- the answers lead to.
pub record Web : Type 1 where
  pub asked : Url → Type 0
  pub within : Scope → Type 0
  pub led_to : Url → Type 0

-- The answers to requests for the URLs that are asked for lead where the web says.
pub record Leads (w : World) (web : Web) : Type 0 where
  pub redirects :
      (n : ℕ) (req : Request) (resp : Response) (loc : Url)
      → web.asked req.url
      → w.answer n req ≡ response resp
      → resp.location ≡ some loc
      → web.led_to (normalize loc)
  pub links :
      (n : ℕ) (req : Request) (resp : Response) (c : Crawler)
      → web.asked req.url
      → web.within c.scope
      → w.answer n req ≡ response resp
      → All web.led_to (extracted w c req.url resp).links
  pub requisites :
      (n : ℕ) (req : Request) (resp : Response) (c : Crawler)
      → web.asked req.url
      → web.within c.scope
      → w.answer n req ≡ response resp
      → All web.led_to (extracted w c req.url resp).requisites

-- What the changes that save a page keep.
pub record Saves (w : World) (web : Web) (P : Crawler → Type 0) : Type 0 where
  pub enqueued :
      (u : Url) (requisite : Bool) (c : Crawler)
      → web.led_to u
      → P c
      → P (enqueue w.net u requisite c)
  pub marked :
      (id status : ℕ) (etag modified : Text) (c : Crawler)
      → P c
      → P (mark_done id status etag modified c)
  pub written :
      (c : Crawler) (u : Url) (local body : Text)
      → local_path c.dest_dir u ≡ some local
      → P c
      → P (record c { files = insert local body c.files })
  pub created :
      (c : Crawler) (u : Url) (local : Text)
      → local_path c.dest_dir u ≡ some local
      → P c
      → P (with_temp w local c)
  pub scoped : (c : Crawler) → P c → web.within c.scope

-- What every single change keeps.
pub record IsKept (w : World) (web : Web) (P : Crawler → Type 0) : Type 0 where
  pub enqueued :
      (u : Url) (requisite : Bool) (c : Crawler)
      → web.led_to u
      → P c
      → P (enqueue w.net u requisite c)
  pub marked :
      (id status : ℕ) (etag modified : Text) (c : Crawler)
      → P c
      → P (mark_done id status etag modified c)
  pub written :
      (c : Crawler) (u : Url) (local body : Text)
      → local_path c.dest_dir u ≡ some local
      → P c
      → P (record c { files = insert local body c.files })
  pub created :
      (c : Crawler) (u : Url) (local : Text)
      → local_path c.dest_dir u ≡ some local
      → P c
      → P (with_temp w local c)
  pub scoped : (c : Crawler) → P c → web.within c.scope
  pub stated :
      (id : ℕ) (s : UrlState) (status : ℕ) (message : Text) (c : Crawler)
      → is_pending s ≡ false
      → P c
      → P (set_state id s status message c)
  pub ticked : (c : Crawler) → P c → P (record c { ticks = suc c.ticks })
  pub requested : (c : Crawler) → P c → P (record c { requests = suc c.requests })
  pub counted : (c : Crawler) → P c → P (record c { errors = suc c.errors })

pub IsKept-Saves : (w : World) (web : Web) (P : Crawler → Type 0) → IsKept w web P → Saves w web P
IsKept-Saves w web P k = record {
  enqueued = k.enqueued;
  marked = k.marked;
  written = k.written;
  created = k.created;
  scoped = k.scoped;
}

module _ (w : World) (web : Web) (P : Crawler → Type 0) (k : Saves w web P) (l : Leads w web) where
  enqueue_all-kept :
      (urls : List Url) (requisite : Bool) (c : Crawler)
      → All web.led_to urls
      → P c
      → P (enqueue_all w urls requisite c)
  unfolding enqueue_all
  enqueue_all-kept [] requisite c q h = h
  enqueue_all-kept (u ∷ urls) requisite c q h =
      enqueue_all-kept urls requisite (enqueue w.net u requisite c) q.1
        (k.enqueued u requisite c q.0 h)

  enqueue_entries-kept :
      (urls : List Url) (c : Crawler) → All web.led_to urls → P c → P (enqueue_entries w urls c)
  unfolding enqueue_entries
  enqueue_entries-kept [] c q h = h
  enqueue_entries-kept (u ∷ urls) c q h = enqueue_entries-kept urls _ q.1 (
      if_holds P (not (u.raw_query == [])) c (enqueue w.net u false c) (λ _. h)
        (λ _. k.enqueued u false c q.0 h))

  renamed-kept :
      (id : ℕ) (resp : Response) (local : Text) (page : Extracted) (rename : Option Text) (u : Url)
      (c : Crawler)
      → All web.led_to page.links
      → All web.led_to page.requisites
      → local_path c.dest_dir u ≡ some local
      → P c
      → P (renamed w id resp local page rename c).1
  unfolding renamed
  renamed-kept id resp local page (some e) u c q r e' h = h
  renamed-kept id resp local page none u c q r e h = k.marked _ _ _ _ _ (
      enqueue_all-kept page.requisites true _ r
        (enqueue_all-kept page.links false _ q (k.written c u local resp.body e h)))

  keep-kept :
      (id : ℕ) (resp : Response) (local : Text) (page : Extracted) (rename : Option Text) (u : Url)
      (c : Crawler)
      → All web.led_to page.links
      → All web.led_to page.requisites
      → local_path c.dest_dir u ≡ some local
      → P c
      → P (keep w id resp local page rename c).1
  unfolding keep
  keep-kept id resp local page rename u c q r e h =
      if_holds (λ (x : Option FetchError × Crawler). P x.1) page.listing _ _
        (λ _. k.marked _ _ _ _ _ (enqueue_entries-kept page.links c q h))
        (λ _. renamed-kept id resp local page rename u c q r e h)

  module _ (n : ℕ) (req : Request) (resp : Response) (here : web.asked req.url)
      (from : w.answer n req ≡ response resp) where
    save-kept :
        (id : ℕ) (local : Text) (disk : Disk) (c : Crawler)
        → local_path c.dest_dir req.url ≡ some local
        → P c
        → P (save w id req.url resp local disk c).1
    unfolding save
    save-kept id local saved c e h =
        keep-kept id resp local (extracted w c req.url resp) none req.url (with_temp w local c)
          (l.links n req resp c here (k.scoped c h) from)
          (l.requisites n req resp c here (k.scoped c h) from) e (k.created c req.url local e h)
    save-kept id local (rename_failed m) c e h =
        keep-kept id resp local (extracted w c req.url resp) (some m) req.url (with_temp w local c)
          (l.links n req resp c here (k.scoped c h) from)
          (l.requisites n req resp c here (k.scoped c h) from) e (k.created c req.url local e h)
    save-kept id local (mkdir_failed m) c e h = h
    save-kept id local (create_failed m) c e h = h
    save-kept id local (copy_failed m) c e h = k.created c req.url local e h
    save-kept id local (close_failed m) c e h = k.created c req.url local e h

    redirect-kept :
        (id code : ℕ) (requisite : Bool) (loc : Option Url) (c : Crawler)
        → resp.location ≡ loc
        → P c
        → P (redirect w id code requisite loc c).1
    unfolding redirect
    redirect-kept id code requisite none c e h = h
    redirect-kept id code requisite (some loc) c e h =
        k.marked _ _ _ _ _
          (k.enqueued (normalize loc) requisite c (l.redirects n req resp loc here from e) h)

    pub handle-kept :
        (id : ℕ) (requisite : Bool) (local : Text) (row : Option Row) (c : Crawler)
        → local_path c.dest_dir req.url ≡ some local
        → P c
        → P (handle w id req.url requisite local row resp c).1
    unfolding handle
    handle-kept id requisite local row c e h =
        let kept = λ (x : Option FetchError × Crawler). P x.1 in
        if_holds kept (nat_eq resp.code 304) _ _ (λ _. k.marked _ _ _ _ _ h)
          (λ _.
            if_holds kept (is_redirect resp.code) _ _
              (λ _. redirect-kept id resp.code requisite resp.location c refl h)
              (λ _.
                if_holds kept (nat_eq (resp.code / 100) 2) _ _
                  (λ _. save-kept id local resp.disk c e h)
                  (λ _.
                    if_holds kept
                      (nat_eq resp.code 408 || nat_eq resp.code 429 || leb 500 resp.code) _ _
                      (λ _. h) (λ _. h))))

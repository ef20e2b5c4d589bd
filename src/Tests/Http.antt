-- ===== src/Tests/Http.antt =====
-- The theorems on the crawl of a web server, on a page that links to one file.
use mirrortools.Http.DirListing.{extract_html}
use mirrortools.FilePaths.{clean, join}
use mirrortools.Prelude.{
  ℕ, ◌≤◌, ◌≡◌, refl, false, none, some, List, [], ◌∷◌, ◌++◌, if◌then◌else◌, ◌==◌, arith, Text,
  codes, text_has_eq, All, if_holds, contains, ◌⊎◌, inl, inr, Bool-cases, some_eq, sym, true,
}
use mathlib.Core.Path.{subst}
use mirrortools.NetUrl.{Url, NetUrl}
use mirrortools.Http.{Crawler, Row, done, fresh_row, normalize, in_scope, resolve, dir_of}
use mirrortools.Http.Html.{element, end}
use mirrortools.Http.Fetch.{World, Answer, response, Response, saved, extracted, process, attempts}
use mirrortools.Http.DirListing.{Extracted}
use mirrortools.Http.Crawl.{End, finished, run}
use mirrortools.Http.Keeps.{Leads}
use mirrortools.Http.Safety.{IsContained, IsInScope, run-IsContained, run-IsInScope, IsTemporary}
use mirrortools.Http.Termination.{run_total, finite}
use mirrortools.Http.Complete.{run-IsSettled}
use mirrortools.Http.Finish.{IsSettled}
use mirrortools.Http.Attempts.{attempts-process}

abbrev url_at : Text → Url
url_at path = record {
  scheme = codes "http";
  user = none;
  host = codes "h";
  path = path;
  raw_path = [];
  raw_query = [];
  fragment = [];
  raw_fragment = [];
}

abbrev page_url : Url
page_url = url_at (codes "/a/")

abbrev file_url : Url
file_url = url_at (codes "/a/b")

abbrev pub net : NetUrl
net = record {
  parse = λ s. if s == codes "http://h/a/" then some page_url else some file_url;
  refer = λ base ref. some (record base { path = dir_of base.path ++ ref });
  show = λ u. u.scheme ++ (codes "://" ++ (u.host ++ u.path));
  hostname = λ u. u.host;
  port = λ u. [];
}

abbrev page : Response
page = record {
  code = 200;
  location = none;
  media_type = codes "text/html";
  etag = codes "x";
  last_modified = [];
  body = codes "<a>";
  disk = saved;
}

abbrev world : World
world = record {
  net = net;
  answer = λ n req. response page;
  cancelled = λ n. false;
  interrupted = λ n. false;
  is_file = λ n path. false;
  parse_html = λ body. some (
      element (codes "a") (record { namespace = []; key = codes "href"; val = codes "b" } ∷ [])
        end);
}

abbrev start : Crawler
start = record {
  rows = fresh_row 1 (codes "http://h/a/") false ∷ [];
  meta = [];
  dest_dir = codes "/d";
  scope = record { scheme = codes "http"; host = codes "h"; path = codes "/a/" };
  requests = 0;
  errors = 0;
  files = [];
  temps = [];
  ticks = 0;
}

abbrev seen : ℕ → Text → Row
seen id url = record {
  id = id;
  url = url;
  requisite = false;
  state = done;
  status = 200;
  message = none;
  etag = some (codes "x");
  last_modified = some [];
}

abbrev after : Crawler
after = record start {
  rows = seen 1 (codes "http://h/a/") ∷ seen 2 (codes "http://h/a/b") ∷ [];
  requests = 2;
  files = (codes "/d/h/a/index.html", codes "<a>") ∷ (codes "/d/h/a/b", codes "<a>") ∷ [];
  temps = codes "/d/h/a/b.httpmirror-tmp" ∷ codes "/d/h/a/index.html.httpmirror-tmp" ∷ [];
  ticks = 2;
}

ran : run world 3 start ≡ some (finished, after)
unfolding run clean extract_html resolve join dir_of
ran = refl

run-IsContained_example :
    All (IsContained (codes "/d")) after.files × All (IsTemporary (codes "/d")) after.temps
run-IsContained_example =
    run-IsContained world 3 start after finished (λ e. ground (arith, e)) tt tt ran

run-IsInScope_example : All (IsInScope net start.scope) after.rows
unfolding in_scope
run-IsInScope_example =
    run-IsInScope world 3 start after finished ((λ e. (page_url, refl, refl)), tt) ran

run-IsSettled_example : All (IsSettled net start.scope) after.rows
run-IsSettled_example = run-IsSettled world 3 start after (refl, tt) ran

attempts-process_example :
    (attempts world 9 1 1 page_url false start ≡ some (process world 1 page_url false start))
    × ((process world 1 page_url false start).1.requests ≤ 3)
attempts-process_example = attempts-process world 9 1 page_url false start (omega arith)

-- The two URLs of the web.
abbrev web : List Text
web = codes "http://h/a/" ∷ codes "http://h/a/b" ∷ []

abbrev IfResponse : (Response → Type 0) → Answer → Type 0
IfResponse P (response resp) = P resp
IfResponse P _ = Unit

-- Each page links to the file beside it.
page_links :
    (u : Url) (c : Crawler)
    → (u ≡ page_url) ⊎ (u ≡ file_url)
    → All (λ x. contains web (net.show x) ≡ true) (extracted world c u page).links
unfolding extracted dir_of extract_html resolve
page_links u c (inl e) =
    subst
      (λ (x : Url). All (λ y. contains web (net.show y) ≡ true) (extracted world c x page).links)
      (sym e)
      (if_holds (λ (x : Extracted). All (λ y. contains web (net.show y) ≡ true) x.links)
        (in_scope c.scope page_url) _ _ (λ _. (refl, tt)) (λ _. tt))
page_links u c (inr e) =
    subst
      (λ (x : Url). All (λ y. contains web (net.show y) ≡ true) (extracted world c x page).links)
      (sym e)
      (if_holds (λ (x : Extracted). All (λ y. contains web (net.show y) ≡ true) x.links)
        (in_scope c.scope file_url) _ _ (λ _. (refl, tt)) (λ _. tt))

page_requisites :
    (u : Url) (c : Crawler)
    → All (λ x. contains web (net.show x) ≡ true) (extracted world c u page).requisites
unfolding extracted extract_html
page_requisites u c =
    if_holds (λ (x : Extracted). All (λ y. contains web (net.show y) ≡ true) x.requisites)
      (in_scope c.scope u) _ _ (λ _. tt) (λ _. tt)

parsed : (s : Text) (u : Url) → net.parse s ≡ some u → (u ≡ page_url) ⊎ (u ≡ file_url)
parsed s u e = elim (Bool-cases (s == codes "http://h/a/")) [
  | inl t ↦ inl (sym (some_eq (rw t at e)))
  | inr t ↦ inr (sym (some_eq (rw t at e)))
]

world-Leads : Leads world (finite net web start.scope)
world-Leads = record {
  redirects = λ n req resp loc a e f.
      subst
        (IfResponse
          (λ r. r.location ≡ some loc → (finite net web start.scope).led_to (normalize loc)))
        e (λ z. cc) f;
  links = λ n req resp c a s e.
      subst
        (IfResponse
          (λ r. All (λ x. contains web (net.show x) ≡ true) (extracted world c req.url r).links))
        e (page_links req.url c (parsed a.0 req.url a.2));
  requisites = λ n req resp c a s e.
      subst
        (IfResponse (λ r.
          All (λ x. contains web (net.show x) ≡ true) (extracted world c req.url r).requisites))
        e (page_requisites req.url c);
}

run_total_example : (r : End × Crawler) × (run world 3 start ≡ some r)
unfolding contains
run_total_example = run_total world web start world-Leads ((refl, tt), (tt, tt), (refl, tt))

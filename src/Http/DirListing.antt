-- ===== src/Http/DirListing.antt =====
-- isListing and extractHTML of httpmirror.go: whether a page is a directory listing that the server
-- made, and all that is read from a page.
use mirrortools.Prelude.{
  ℕ, suc, Bool, true, false, ◌&&◌, ◌||◌, Option, none, some, List, [], ◌∷◌, ◌++◌, if◌then◌else◌,
  ◌==◌, nat_eq, leb, Text, codes, text_has_eq, has_prefix, contains, trim_space, fields, cut_first,
  length, drop, lower, is_digit, nat_has_eq,
}
use mirrortools.NetUrl.{Url, NetUrl}
use mirrortools.Http.Html.{
  Attr, Node, Nodes, element, text, other, end, node, get_attr, text_in, find_base, links_of,
  requisites_of,
}
use mirrortools.Http.Css.{re_space}

-- strings.Join(words, " ")
spaced : List Text → Text
spaced [] = []
spaced (w ∷ []) = w
spaced (w ∷ v ∷ words) = w ++ (b' ' ∷ spaced (v ∷ words))

-- What stands after a beginning in small letters, if that is a space.
then_space : Text → Text → Bool
then_space s [] = false
then_space [] (p ∷ ps) = false
then_space (c ∷ []) (p ∷ ps) = false
then_space (c ∷ d ∷ s) (p ∷ []) = nat_eq (lower c) p && re_space d
then_space (c ∷ d ∷ s) (p ∷ q ∷ ps) = nat_eq (lower c) p && then_space (d ∷ s) (q ∷ ps)

-- listingTitleRe
unfoldable pub is_listing_title : Text → Bool
unfolding then_space
is_listing_title s =
    then_space s (codes "index of")
    || then_space s (codes "directory listing for")
    || then_space s (codes "directory listing of")
    || then_space s (codes "directory:")

word_byte : ℕ → Bool
word_byte c =
    is_digit c || (leb b'a' c && leb c b'z') || (leb b'A' c && leb c b'Z') || nat_eq c b'_'

all_word : Text → Bool
unfolding word_byte
all_word [] = true
all_word (c ∷ s) = word_byte c && all_word s

-- \w+ after a beginning.
word_after : Text → Text → Bool
unfolding all_word has_prefix
word_after start s =
    has_prefix s start && leb (suc (length start)) (length s) && all_word (drop (length start) s)

-- C=[NMSD][;&]O=[AD]
apache_sort : Text → Bool
unfolding contains
apache_sort (a ∷ b ∷ c ∷ d ∷ e ∷ f ∷ g ∷ []) =
    nat_eq a b'C'
    && nat_eq b b'='
    && contains (codes "NMSD") c
    && contains (codes ";&") d
    && nat_eq e b'O'
    && nat_eq f b'='
    && contains (codes "AD") g
apache_sort _ = false

-- sortQueryRe
unfoldable pub is_sort_query : Text → Bool
unfolding apache_sort word_after cut_first
is_sort_query s = apache_sort s || elim (cut_first b'&' s) [
  | none ↦ false
  | some (first, second) ↦
      (word_after (codes "sort=") first && word_after (codes "order=") second)
      || (word_after (codes "order=") first && word_after (codes "sort=") second)
]

-- The text of the title, and of what stands in a title.
unfoldable mutual
  pub title_of : Bool → Node → Text
  title_of in_title (element name attrs children) =
      title_in (in_title || name == codes "title") children
  title_of in_title (text s) = if in_title then s else []
  title_of in_title (other children) = title_in in_title children

  pub title_in : Bool → Nodes → Text
  title_in in_title end = []
  title_in in_title (node n rest) = title_of in_title n ++ title_in in_title rest

-- The anchors: their attributes and children.
unfoldable mutual
  pub anchors_of : Node → List (List Attr × Nodes)
  anchors_of (element name attrs children) =
      let below = anchors_in children in
      if name == codes "a" then (attrs, children) ∷ below else below
  anchors_of (text s) = []
  anchors_of (other children) = anchors_in children

  pub anchors_in : Nodes → List (List Attr × Nodes)
  anchors_in end = []
  anchors_in (node n rest) = anchors_of n ++ anchors_in rest

abbrev last_of : Option Nodes → Option Nodes → Option Nodes
last_of a none = a
last_of a (some b) = some b

-- The children of the last body.
unfoldable mutual
  pub body_of : Node → Option Nodes
  body_of (element name attrs children) =
      let below = body_in children in
      if name == codes "body" then last_of (some children) below else below
  body_of (text s) = none
  body_of (other children) = body_in children

  pub body_in : Nodes → Option Nodes
  body_in end = none
  body_in (node n rest) = last_of (body_of n) (body_in rest)

-- The names and the children of the elements among siblings.
elements_in : Nodes → List (Text × Nodes)
elements_in end = []
elements_in (node (element name attrs children) rest) = (name, children) ∷ elements_in rest
elements_in (node (text s) rest) = elements_in rest
elements_in (node (other children) rest) = elements_in rest

only_anchors : List (Text × Nodes) → Bool
only_anchors [] = true
only_anchors (e ∷ rest) = e.0 == codes "a" && only_anchors rest

one_pre : List (Text × Nodes) → Bool
unfolding only_anchors elements_in
one_pre (e ∷ []) = e.0 == codes "pre" && only_anchors (elements_in e.1)
one_pre _ = false

module _ (net : NetUrl) (page : Url) where
  sorts_page : List Attr → Bool
  unfolding is_sort_query get_attr
  sorts_page attrs = elim (net.refer page (get_attr attrs (codes "href"))) [
    | none ↦ false
    | some u ↦ u.path == page.path && is_sort_query u.raw_query
  ]

  -- The loop over the anchors, with the links that sort the page so far.
  anchors_list : ℕ → List (List Attr × Nodes) → Bool
  unfolding sorts_page text_in trim_space
  anchors_list sorts [] = leb 2 sorts
  anchors_list sorts (a ∷ rest) =
      let others = anchors_list (if sorts_page a.0 then suc sorts else sorts) rest in
      if trim_space (text_in a.1) == codes "[To Parent Directory]" then true else others

  -- isListing
  unfoldable pub is_listing : Node → Bool
  unfolding is_listing_title title_of anchors_of anchors_list body_of one_pre elements_in spaced
      fields
  is_listing doc =
      let title = title_of false doc in
      is_listing_title (spaced (fields title))
      || anchors_list 0 (anchors_of doc)
      || elim (body_of doc) [
        | none ↦ false
        | some children ↦ title == [] && one_pre (elements_in children)
      ]

pub record Extracted : Type 0 where
  pub links : List Url
  pub requisites : List Url
  pub listing : Bool

-- The URL that the references of a page are relative to.
base_url : NetUrl → Url → Text → Url
unfolding trim_space
base_url net page href =
    if href == []
    then page
    else elim (net.refer page (trim_space href)) [ none ↦ page | some u ↦ u ]

-- extractHTML, of the tree that html.Parse gives.
unfoldable pub extract_html : NetUrl → Option Node → Url → Extracted
unfolding base_url find_base links_of requisites_of is_listing
extract_html net none page = record { links = []; requisites = []; listing = false }
extract_html net (some doc) page =
    let base = base_url net page (find_base doc) in
    record {
      links = links_of net base doc;
      requisites = requisites_of net base doc;
      listing = is_listing net page doc;
    }

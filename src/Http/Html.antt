-- ===== src/Http/Html.antt =====
-- What a page links to: extractHTML and isListing of httpmirror.go. The tree of a page is what
-- golang.org/x/net/html makes of it.

use mirrortools.Prelude.{
  Bool, false, ◌&&◌, ◌||◌, List, [], ◌∷◌, ◌++◌, if◌then◌else◌, ◌==◌, Text, codes, text_has_eq,
  to_lower, equal_fold, contains, fields, split,
}
use mirrortools.NetUrl.{Url, NetUrl}
use mirrortools.Http.{resolve}
use mirrortools.Http.Css.{extract_css, found_url}

-- html.Attribute
pub record Attr : Type 0 where
  pub namespace : Text
  pub key : Text
  pub val : Text

-- html.Node: an element, a text, or any other node. Siblings are a list.
mutual
  pub data Node : Type 0 where
    element : Text → List Attr → Nodes → Node
    text : Text → Node
    other : Nodes → Node

  pub data Nodes : Type 0 where
    end : Nodes
    node : Node → Nodes → Nodes

-- getAttr
unfoldable pub get_attr : List Attr → Text → Text
get_attr [] key = []
get_attr (a ∷ attrs) key =
    let rest = get_attr attrs key in if a.namespace == [] && a.key == key then a.val else rest

abbrev or_text : Text → Text → Text
or_text [] b = b
or_text (c ∷ s) b = c ∷ s

-- findBase
unfoldable mutual
  unfolding get_attr

  pub find_base : Node → Text
  find_base (element name attrs children) =
      let below = find_base_in children in
      if name == codes "base" then or_text (get_attr attrs (codes "href")) below else below
  find_base (text s) = []
  find_base (other children) = find_base_in children

  pub find_base_in : Nodes → Text
  find_base_in end = []
  find_base_in (node n rest) = or_text (find_base n) (find_base_in rest)

-- textOf
unfoldable mutual
  pub text_of : Node → Text
  text_of (element name attrs children) = text_in children
  text_of (text s) = s
  text_of (other children) = text_in children

  pub text_in : Nodes → Text
  text_in end = []
  text_in (node n rest) = text_of n ++ text_in rest

abbrev requisite_rels : List Text
requisite_rels =
    codes "stylesheet"
    ∷ codes "icon"
    ∷ codes "shortcut"
    ∷ codes "apple-touch-icon"
    ∷ codes "apple-touch-icon-precomposed"
    ∷ codes "mask-icon"
    ∷ codes "manifest"
    ∷ codes "preload"
    ∷ codes "modulepreload"
    ∷ []

any_rel : List Text → Bool
unfolding contains
any_rel [] = false
any_rel (rel ∷ rels) = contains requisite_rels rel || any_rel rels

first_text : Nodes → Text
first_text (node (text s) rest) = s
first_text _ = []

srcset_urls : NetUrl → Url → List Text → List Url
srcset_urls net base [] = []
srcset_urls net base (part ∷ parts) =
    let rest = srcset_urls net base parts in
    elim (fields part) [ [] ↦ rest | url ∷ more ↦ found_url (resolve net base url) ++ rest ]

module _ (net : NetUrl) (base : Url) where
  -- addLink, addReq
  at_attr : List Attr → Text → List Url
  unfolding get_attr
  at_attr attrs key = found_url (resolve net base (get_attr attrs key))

  links_at : Text → List Attr → List Url
  unfolding at_attr
  links_at name attrs =
      if name == codes "a" || name == codes "area"
      then at_attr attrs (codes "href")
      else if name == codes "frame" || name == codes "iframe"
      then at_attr attrs (codes "src")
      else []

  requisites_at : Text → List Attr → Nodes → List Url
  unfolding at_attr get_attr any_rel first_text srcset_urls
  requisites_at name attrs children =
      if name == codes "img" || name == codes "source"
      then at_attr attrs (codes "src")
        ++ srcset_urls net base (split b',' (get_attr attrs (codes "srcset")))
      else if contains (codes "script" ∷ codes "audio" ∷ codes "track" ∷ codes "embed" ∷ []) name
      then at_attr attrs (codes "src")
      else if name == codes "video"
      then at_attr attrs (codes "src") ++ at_attr attrs (codes "poster")
      else if name == codes "object"
      then at_attr attrs (codes "data")
      else if name == codes "input"
      then (if equal_fold (get_attr attrs (codes "type")) (codes "image")
          then at_attr attrs (codes "src")
          else [])
      else if name == codes "link"
      then (if any_rel (fields (to_lower (get_attr attrs (codes "rel"))))
          then at_attr attrs (codes "href")
          else [])
      else if contains (codes "body" ∷ codes "table" ∷ codes "tr" ∷ codes "td" ∷ codes "th" ∷ [])
          name
      then at_attr attrs (codes "background")
      else if name == codes "style"
      then extract_css net (first_text children) base
      else []

  style_at : List Attr → List Url
  unfolding get_attr
  style_at attrs =
      let style = get_attr attrs (codes "style") in
      if style == [] then [] else extract_css net style base

  -- The walk of extractHTML: the links and the requisites.
  unfoldable mutual
    unfolding links_at requisites_at style_at

    pub links_of : Node → List Url
    links_of (element name attrs children) = links_at name attrs ++ links_in children
    links_of (text s) = []
    links_of (other children) = links_in children

    pub links_in : Nodes → List Url
    links_in end = []
    links_in (node n rest) = links_of n ++ links_in rest

  unfoldable mutual
    unfolding links_at requisites_at style_at

    pub requisites_of : Node → List Url
    requisites_of (element name attrs children) =
        requisites_at name attrs children ++ (style_at attrs ++ requisites_in children)
    requisites_of (text s) = []
    requisites_of (other children) = requisites_in children

    pub requisites_in : Nodes → List Url
    requisites_in end = []
    requisites_in (node n rest) = requisites_of n ++ requisites_in rest

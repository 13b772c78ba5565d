-- ===== src/Admin/Formatters/Verbatim.antt =====
-- The keys of the documents of a request for a role are shown as they are.
use Prim.Native.Char.{Char, code}
use Prim.Native.String
use text.Mathlib.TextLemmas.{append_assoc}
use fair_drop.Common.{
  ◌≡◌, refl, ap, ◌∙◌, inl, inr, true, String, Option, none, some, [], ◌∷◌, All, ==_refl,
  strip_prefix, contains, Option-cases,
}
use fair_drop.Json.{Json, Dict}
use fair_drop.Admin.Formatters.{
  Cell, markup, plain, link_start, link_end, doc_link, joined_links, docs_link_formatter,
}

strip_prefix-append : (p x : String) → strip_prefix p (String.◌++◌ p x) ≡ some x
unfolding strip_prefix
strip_prefix-append String.[] x = rw (String.append.nil x) refl
strip_prefix-append (String.◌∷◌ c p) x =
    rw (String.append.cons c p x) (rw (==_refl (code c)) (strip_prefix-append p x))

contains-here : (k text rest : String) → strip_prefix k text ≡ some rest → contains k text ≡ true
unfolding contains
contains-here k String.[] rest h = rw (h, contains) refl
contains-here k (String.◌∷◌ c text) rest h = rw (h, contains) refl

contains-later :
    (k : String) (c : Char) (text : String)
    → contains k text ≡ true
    → contains k (String.◌∷◌ c text) ≡ true
unfolding contains
contains-later k c text h = elim (Option-cases (strip_prefix k (String.◌∷◌ c text))) [
  | inl other ↦ rw (other, contains) h
  | inr (rest, here) ↦ rw (here, contains) refl
]

-- A text that ends with one that contains `k`.
contains-append :
    (k a text : String) → contains k text ≡ true → contains k (String.◌++◌ a text) ≡ true
contains-append k String.[] text h = rw (String.append.nil text) h
contains-append k (String.◌∷◌ c a) text h =
    rw (String.append.cons c a text)
      (contains-later k c (String.◌++◌ a text) (contains-append k a text h))

contains-middle : (a k b : String) → contains k (String.◌++◌ a (String.◌++◌ k b)) ≡ true
contains-middle a k b =
    contains-append k a (String.◌++◌ k b)
      (contains-here k (String.◌++◌ k b) b (strip_prefix-append k b))

-- A key is in its own link, whatever follows.
in_link : (id k rest : String) → contains k (String.◌++◌ (doc_link id k) rest) ≡ true
in_link id k rest =
    rw
      (append_assoc (link_start id) (String.◌++◌ k (link_end k)) rest
        ∙ ap (String.◌++◌ (link_start id)) (append_assoc k (link_end k) rest))
      (contains-middle (link_start id) k (String.◌++◌ (link_end k) rest))

abbrev IsIn : String → String × Json → Type 0
IsIn text doc = contains doc.0 text ≡ true

later_links :
    (id a : String) (text : String) (docs : Dict)
    → All (IsIn text) docs
    → All (IsIn (String.◌++◌ a text)) docs
later_links id a text [] h = tt
later_links id a text ((k, v) ∷ docs) h =
    (contains-append k a text h.0, later_links id a text docs h.1)

joined_links-IsIn : (id : String) (docs : Dict) → All (IsIn (joined_links id docs)) docs
unfolding joined_links
joined_links-IsIn id [] = tt
joined_links-IsIn id ((k, v) ∷ []) = (contains-middle (link_start id) k (link_end k), tt)
joined_links-IsIn id ((k, v) ∷ next ∷ docs) = (
  in_link id k (String.◌++◌ ", " (joined_links id (next ∷ docs))),
  later_links id (doc_link id k) _ (next ∷ docs) (
      later_links id ", " (joined_links id (next ∷ docs)) (next ∷ docs)
        (joined_links-IsIn id (next ∷ docs))),
)

-- The text that a cell shows unescaped.
pub shown_as_is : Cell → Option String
shown_as_is (markup text) = some text
shown_as_is (plain text) = none

-- The panel shows each key of the documents of a request for a role unescaped: where there are
-- documents, the cell is markup, and every key is in it character by character.
pub docs_link_formatter-verbatim :
    (id : String) (doc : String × Json) (docs : Dict)
    → (text : String) × (docs_link_formatter id (some (doc ∷ docs)) ≡ markup text)
      × All (IsIn text) (doc ∷ docs)
unfolding docs_link_formatter
docs_link_formatter-verbatim id doc docs =
    (joined_links id (doc ∷ docs), refl, joined_links-IsIn id (doc ∷ docs))

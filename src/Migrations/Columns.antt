-- ===== src/Migrations/Columns.antt =====
-- The columns that the migrations leave are those that the models declare.
pub mod Declared
use fair_drop.Common.{
  ◌≡◌, refl, sym, ap, ◌∙◌, ◌&&◌, ◌||◌, not, inl, inr, Bool, true, false, String, Option, none, some,
  List, [], ◌∷◌, ◌++◌, All, map, arith, str_eq, str_eq_iff, Bool-cases, and_true, Option-cases,
  if◌then◌else◌,
}
use fair_drop.Migrations.{
  Column, Operation, create_index, Columns, is_column, find, reject, revise, columns_after,
  type_values,
}
use fair_drop.Migrations.Engine.{Engine, run, run-first}
use fair_drop.Migrations.Versions.{versions, upgrades}
use Declared.{metadata, metadata_types}

-- The tables and names of columns.
abbrev Keys : Type 0
Keys = List (String × String)

abbrev keys : Columns → Keys
keys cs = map (λ e. (e.0, e.1.name)) cs

-- The columns of some keys, as a database has them.
unfoldable pick : Keys → Columns → Columns
unfolding find
pick [] cs = []
pick ((t, n) ∷ ks) cs =
    let rest = pick ks cs in elim (find t n cs) [ none ↦ rest | some c ↦ (t, c) ∷ rest ]

-- The name of the index, where a directive creates one.
abbrev index_name : Operation → Option String
index_name (create_index n _ _ _) = some n
index_name _ = none

abbrev is_among : List String → Option String → Bool
is_among ns none = false
is_among [] (some n) = false
is_among (m ∷ ns) (some n) = str_eq m n || is_among ns (some n)

abbrev add_name : Option String → List String → List String
add_name none ns = ns
add_name (some n) ns = n ∷ ns

-- The directives, but for those that create an index which an earlier one has created.
unfoldable pub without_repeats : List String → List Operation → List Operation
without_repeats seen [] = []
without_repeats seen (op ∷ ops) =
    let rest = without_repeats (add_name (index_name op) seen) ops in
    if is_among seen (index_name op) then rest else op ∷ rest

-- What directives make of the columns.
abbrev columns_after_all : List Operation → Columns → Columns
columns_after_all [] cs = cs
columns_after_all (op ∷ ops) cs = columns_after_all ops (columns_after op cs)

abbrev pub repaired : List Operation
repaired = without_repeats [] (upgrades versions)

find_name : (t n : String) (cs : Columns) (c : Column) → find t n cs ≡ some c → n ≡ c.name
unfolding find
find_name t n [] c h = cc
find_name t n ((u, d) ∷ cs) c h = elim (Bool-cases (is_column t n (u, d))) [
  | inl this ↦
      let same = (str_eq_iff n d.name).0 (and_true (str_eq t u) (str_eq n d.name) this).1 in
      let found : d ≡ c = ground arith in same ∙ ap (λ x. x.name) found
  | inr other ↦ find_name t n cs c (ground arith)
]

pick-none :
    (t n : String) (ks : Keys) (cs : Columns)
    → find t n cs ≡ none
    → pick ((t, n) ∷ ks) cs ≡ pick ks cs
unfolding pick
pick-none t n ks cs h = rw (h, pick)

pick-some :
    (t n : String) (ks : Keys) (cs : Columns) (c : Column)
    → find t n cs ≡ some c
    → pick ((t, n) ∷ ks) cs ≡ (t, c) ∷ pick ks cs
unfolding pick
pick-some t n ks cs c h = rw (h, pick)

here :
    (e : String × Column) (cs : Columns) (t n : String) (c : Column)
    → is_column t n e ≡ true
    → find t n (e ∷ cs) ≡ some c
    → e.1 ≡ c
unfolding find
here (u, d) cs t n c this h = ground arith

next :
    (e : String × Column) (cs : Columns) (t n : String) (c : Column)
    → is_column t n e ≡ false
    → find t n (e ∷ cs) ≡ some c
    → find t n cs ≡ some c
unfolding find
next (u, d) cs t n c other h = ground arith

find-pick :
    (t n : String) (ks : Keys) (cs : Columns) (c : Column)
    → find t n (pick ks cs) ≡ some c
    → find t n cs ≡ some c
unfolding pick find
find-pick t n [] cs c h = cc
find-pick t n ((u, m) ∷ ks) cs c h = elim (Option-cases (find u m cs)) [
  | inl nothing ↦
      find-pick t n ks cs c (ap (λ x. find t n x) (sym (pick-none u m ks cs nothing)) ∙ h)
  | inr (d, found) ↦
      let first = ap (λ x. find t n x) (sym (pick-some u m ks cs d found)) ∙ h in
      elim (Bool-cases (is_column t n (u, d))) [
        | inl this ↦
            let named = find_name u m cs d found in
            let table = (str_eq_iff t u).0 (and_true (str_eq t u) (str_eq n d.name) this).0 in
            let name = (str_eq_iff n d.name).0 (and_true (str_eq t u) (str_eq n d.name) this).1 in
            let same = here (u, d) (pick ks cs) t n c this first in cc
        | inr other ↦ find-pick t n ks cs c (next (u, d) (pick ks cs) t n c other first)
      ]
]

-- Columns that pick each other are the same.
same_columns :
    (t n : String) (xs ys : Columns)
    → pick (keys xs) ys ≡ xs
    → pick (keys ys) xs ≡ ys
    → find t n xs ≡ find t n ys
same_columns t n xs ys h k = elim (Option-cases (find t n xs)) [
  | inr (c, found) ↦ found ∙ sym (find-pick t n (keys xs) ys c (ap (λ x. find t n x) h ∙ found))
  | inl nothing ↦ elim (Option-cases (find t n ys)) [
    | inl neither ↦ nothing ∙ sym neither
    | inr (c, found) ↦
        let there = find-pick t n (keys ys) xs c (ap (λ x. find t n x) k ∙ found) in cc
  ]
]

-- The values that the models declare and the migrations leave out.
abbrev pub left_out : String → List String
left_out t = if str_eq t "orderstatus" then "COMPLETED" ∷ "EXPIRED" ∷ [] else []

module _ (engine : Engine) where
  columns-run :
      (ops : List Operation) (s s' : engine.Catalog)
      → run engine ops s ≡ some s'
      → engine.columns s' ≡ columns_after_all ops (engine.columns s)
  unfolding run
  columns-run [] s s' h = cc
  columns-run (op ∷ ops) s s' h =
      let (s1, done, rest) = run-first engine op ops s s' h in
      columns-run ops s1 s' rest ∙ ap (columns_after_all ops) (engine.columns-apply op s s1 done)

  -- From a database without columns, the upgrades to the head, without the second creation of an
  -- index, leave the columns that the models declare, and no others: the same tables and names, with
  -- the same nullability and defaults, and with the same types, an enum's by its name. The enum types
  -- have the values that the models declare, but for COMPLETED and EXPIRED of `orderstatus`, which
  -- the migrations leave out.
  pub upgrades-metadata :
      (s s' : engine.Catalog) (t n : String)
      → engine.columns s ≡ []
      → run engine repaired s ≡ some s'
      → (find t n (engine.columns s') ≡ find t n metadata)
        × All
            (λ (e : String × List String). type_values e.0 repaired ++ left_out e.0 ≡ e.1)
            metadata_types
  unfolding pick without_repeats columns_after find revise reject type_values
  upgrades-metadata s s' t n empty h =
      let left = columns-run repaired s s' h ∙ ap (columns_after_all repaired) empty in
      (
        ap (find t n) left ∙ same_columns t n (columns_after_all repaired []) metadata refl refl,
        (refl, (refl, (refl, (refl, tt)))),
      )

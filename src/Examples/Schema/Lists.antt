-- ===== src/Examples/Schema/Lists.antt =====
-- Lists of objects and columns: what is taken away, and what stays.
use fair_drop.Common.{
  ◌≡◌, refl, sym, ap, ◌∙◌, inl, inr, Bool, true, false, not, ◌&&◌, String, some, List, [], ◌∷◌,
  ◌++◌, map, arith, str_eq, str_eq_refl, Bool-cases, and_true,
}
use mathlib.Core.List.{append-nil}
use fair_drop.Database.{is_some}
use fair_drop.Migrations.{
  Column, Columns, is_column, find, reject, revise, Object, index_of, type_of, value_of,
  constraint_of, same_object,
}
use fair_drop.Migrations.Objects.{same_object_lem}
use fair_drop.Examples.Schema.{has_object, has_table}

pub same_object_refl : (o : Object) → same_object o o ≡ true
same_object_refl (index_of a) = str_eq_refl a
same_object_refl (type_of a) = str_eq_refl a
same_object_refl (value_of a v) = rw (str_eq_refl a, str_eq_refl v)
same_object_refl (constraint_of a v) = rw (str_eq_refl a, str_eq_refl v)

pub has-append :
    (o : Object) (xs ys : List Object) → has_object o ys ≡ true → has_object o (xs ++ ys) ≡ true
has-append o [] ys h = h
has-append o (x ∷ xs) ys h = let ih = has-append o xs ys h in ground arith

pub has-front :
    (o : Object) (xs ys : List Object) → has_object o xs ≡ true → has_object o (xs ++ ys) ≡ true
has-front o [] ys h = cc
has-front o (x ∷ xs) ys h = elim (Bool-cases (same_object o x)) [
  | inl this ↦ rw this
  | inr other ↦ let ih = has-front o xs ys (ground arith) in ground arith
]

pub has-reject :
    (p : Object → Bool) (o : Object) (xs : List Object)
    → p o ≡ false
    → has_object o xs ≡ true
    → has_object o (reject p xs) ≡ true
unfolding reject
has-reject p o [] h there = there
has-reject p o (x ∷ xs) h there = elim (Bool-cases (same_object o x)) [
  | inl this ↦ let kept : p x ≡ false = ap p (sym (same_object_lem o x this)) ∙ h in rw (kept, this)
  | inr other ↦
      let ih = has-reject p o xs h (ground arith) in
      elim (Bool-cases (p x)) [ inl gone ↦ rw (gone, ih) | inr kept ↦ rw (kept, other, ih) ]
]

-- Whether a test takes nothing away, and whether it takes all away.
abbrev pub all_kept {ℓ} : {A : Type ℓ} → (A → Bool) → List A → Bool
all_kept p [] = true
all_kept p (x ∷ xs) = not (p x) && all_kept p xs

abbrev pub all_gone {ℓ} : {A : Type ℓ} → (A → Bool) → List A → Bool
all_gone p [] = true
all_gone p (x ∷ xs) = p x && all_gone p xs

pub reject-gone {ℓ} :
    {A : Type ℓ} (p : A → Bool) (ys : List A) → all_gone p ys ≡ true → reject p ys ≡ []
unfolding reject
reject-gone p [] h = refl
reject-gone p (y ∷ ys) h =
    let (first, rest) = and_true (p y) (all_gone p ys) h in rw (first, reject-gone p ys rest)

pub reject-kept {ℓ} :
    {A : Type ℓ} (p : A → Bool) (xs ys : List A)
    → all_kept p xs ≡ true
    → reject p ys ≡ []
    → reject p (xs ++ ys) ≡ xs
unfolding reject
reject-kept p [] ys h gone = gone
reject-kept p (x ∷ xs) ys h gone = elim (Bool-cases (p x)) [
  | inl this ↦ absurd (ground arith)
  | inr other ↦ rw (other, reject-kept p xs ys (ground arith) gone)
]

-- What one created last is taken away alone.
pub reject-objects :
    (p : Object → Bool) (o : Object) (xs : List Object)
    → ((x : Object) → p x ≡ true → x ≡ o)
    → has_object o xs ≡ false
    → all_kept p xs ≡ true
reject-objects p o [] only fresh = refl
reject-objects p o (x ∷ xs) only fresh = elim (Bool-cases (p x)) [
  | inl this ↦ absurd (
      let same = ap (λ z. same_object o z) (sym (only x this)) in
      let r = same_object_refl o in ground arith)
  | inr other ↦ rw (other, reject-objects p o xs only (ground arith))
]

pub table_kept :
    (t : String) (cs : Columns) → has_table t cs ≡ false → all_kept (λ e. str_eq t e.0) cs ≡ true
table_kept t [] h = refl
table_kept t ((u, c) ∷ cs) h = elim (Bool-cases (str_eq t u)) [
  | inl this ↦ absurd (ground arith)
  | inr other ↦ rw (other, table_kept t cs (ground arith))
]

pub table_gone :
    (t : String) (cs : List Column)
    → all_gone (λ (e : String × Column). str_eq t e.0) (map (λ c. (t, c)) cs) ≡ true
table_gone t [] = refl
table_gone t (c ∷ cs) = rw (str_eq_refl t, table_gone t cs)

pub column_kept :
    (t n : String) (cs : Columns)
    → is_some (find t n cs) ≡ false
    → all_kept (is_column t n) cs ≡ true
unfolding find
column_kept t n [] h = refl
column_kept t n ((u, c) ∷ cs) h = elim (Bool-cases (is_column t n (u, c))) [
  | inl this ↦ absurd (ground arith)
  | inr other ↦ rw (other, column_kept t n cs (ground arith))
]

pub revise-back :
    (t n : String) (f g : Column → Column) (cs : Columns) (c : Column)
    → ((d : Column) → (f d).name ≡ d.name)
    → find t n cs ≡ some c
    → g (f c) ≡ c
    → revise (is_column t n) g (revise (is_column t n) f cs) ≡ cs
unfolding find revise
revise-back t n f g [] c named found h = cc
revise-back t n f g ((u, d) ∷ cs) c named found h = elim (Bool-cases (is_column t n (u, d))) [
  | inl this ↦
      let still : is_column t n (u, f d) ≡ true =
        ap (λ x. str_eq t u && str_eq n x) (named d) ∙ this in
      let same : d ≡ c = ground arith in let back : g (f d) ≡ d = cc in rw (this, still, back)
  | inr other ↦ rw (other, other, revise-back t n f g cs c named (ground arith) h)
]

pub reject_nothing : (xs : List Object) → reject (λ o. false) xs ≡ xs
unfolding reject
reject_nothing [] = refl
reject_nothing (x ∷ xs) = ap (λ ys. x ∷ ys) (reject_nothing xs)

pub untouched : (xs : List Object) → reject (λ o. false) (reject (λ o. false) (xs ++ []) ++ []) ≡ xs
untouched xs =
    rw (reject_nothing (xs ++ []), append-nil (xs ++ []), reject_nothing (xs ++ []), append-nil xs)

pub reject-added :
    (o : Object) (xs : List Object)
    → has_object o xs ≡ false
    → reject (λ p. same_object p o) (reject (λ p. false) (xs ++ o ∷ []) ++ []) ≡ xs
unfolding reject
reject-added o xs h =
    let kept = reject-objects (λ p. same_object p o) o xs (λ x same. same_object_lem x o same) h in
    let gone = reject-gone (λ p. same_object p o) (o ∷ []) (rw (same_object_refl o)) in
    ap (λ ys. reject (λ p. same_object p o) (ys ++ [])) (reject_nothing (xs ++ o ∷ []))
    ∙ ap (λ ys. reject (λ p. same_object p o) ys) (append-nil (xs ++ o ∷ []))
    ∙ reject-kept (λ p. same_object p o) xs (o ∷ []) kept gone

pub find-revise :
    (t n : String) (f : Column → Column) (cs : Columns) (c : Column)
    → ((d : Column) → (f d).name ≡ d.name)
    → find t n cs ≡ some c
    → is_some (find t n (revise (is_column t n) f cs)) ≡ true
unfolding find revise
find-revise t n f [] c named h = cc
find-revise t n f ((u, d) ∷ cs) c named h = elim (Bool-cases (is_column t n (u, d))) [
  | inl this ↦
      let still : is_column t n (u, f d) ≡ true =
        ap (λ x. str_eq t u && str_eq n x) (named d) ∙ this in
      rw (this, still)
  | inr other ↦ rw (other, other, find-revise t n f cs c named (ground arith))
]

-- ===== src/Examples/Schema/Plain.antt =====
-- The small engine does what the migrations take of an engine.
use fair_drop.Common.{
  ◌≡◌, refl, sym, ap, ◌∙◌, subst, inl, inr, true, false, not, String, Option, none, some, List, [],
  ◌∷◌, ◌++◌, map, arith, str_eq, str_eq_refl, Bool-cases,
}
use fair_drop.Database.{is_some}
use fair_drop.Migrations.{
  Column, Operation, create_table, add_column, alter_nullable, alter_type, create_index, drop_index,
  create_foreign_key, drop_constraint, drop_type_if_exists, Columns, is_column, find, columns_after,
  Object, index_of, type_of, value_of, constraint_of, creates, can_drop, inverse,
}
use fair_drop.Migrations.Engine.{Engine, IsDescribed, keeps_rows}
use fair_drop.Examples.Schema.{
  Schema, has_object, is_among, removes, added, is_refused, effect, apply,
}
use fair_drop.Examples.Schema.Lists.{
  same_object_refl, has-append, has-front, has-reject, reject-gone, reject-kept, table_kept,
  table_gone, column_kept, revise-back, untouched, reject-added, find-revise,
}

pub apply_some :
    (op : Operation) (s s' : Schema)
    → apply op s ≡ some s'
    → (is_refused op s ≡ false) × (effect op s ≡ s')
unfolding apply
apply_some op s s' h = elim (Bool-cases (is_refused op s)) [
  | inl refused ↦ absurd (ground arith)
  | inr taken ↦ (taken, ground arith)
]

pub removes-can_drop : (op : Operation) (o : Object) → can_drop o op ≡ false → removes op o ≡ false
unfolding removes can_drop
removes-can_drop (drop_index n t) (index_of m) h = h
removes-can_drop (drop_index n t) (type_of m) h = refl
removes-can_drop (drop_index n t) (value_of m v) h = refl
removes-can_drop (drop_index n t) (constraint_of m u) h = refl
removes-can_drop (drop_constraint n t) (index_of m) h = refl
removes-can_drop (drop_constraint n t) (type_of m) h = refl
removes-can_drop (drop_constraint n t) (value_of m v) h = refl
removes-can_drop (drop_constraint n t) (constraint_of m u) h = h
removes-can_drop (drop_type_if_exists n) o h = h
removes-can_drop op o h = refl

pub apply_created :
    (op : Operation) (o : Object) (s : Schema)
    → creates op ≡ some o
    → has_object o s.objects ≡ true
    → is_refused op s ≡ true
unfolding is_refused creates
apply_created (create_table t cs ks) o s made there = cc
apply_created (add_column t c) o s made there = cc
apply_created (alter_nullable t n b) o s made there = cc
apply_created (alter_type t n a b) o s made there = cc
apply_created op o s made there = cc

abbrev pub with_parts : Columns → List Object → Schema → Schema
with_parts c o s = record { columns = c; objects = o; populated = s.populated }

pub same_schema :
    (c : Columns) (o : List Object) (s : Schema)
    → c ≡ s.columns
    → o ≡ s.objects
    → with_parts c o s ≡ s
same_schema c o s h k = rw (h, k)

-- The inverse of a directive that is taken is taken, and gives the schema back.
abbrev pub IsTakenBack : Operation → Schema → Option Operation → Type 0
IsTakenBack op s none = Unit
IsTakenBack op s (some back) =
    (is_refused back (effect op s) ≡ false) × (effect back (effect op s) ≡ s)

pub taken_back :
    (op : Operation) (s : Schema)
    → IsDescribed op s.columns
    → is_refused op s ≡ false
    → IsTakenBack op s (inverse op)
unfolding inverse is_refused effect columns_after removes added creates
taken_back (create_table t cs ks) s d taken = (
  refl,
  same_schema _ _ s
      (reject-kept (λ (e : String × Column). str_eq t e.0) s.columns (map (λ c. (t, c)) cs)
        (table_kept t s.columns taken)
        (reject-gone (λ (e : String × Column). str_eq t e.0) (map (λ c. (t, c)) cs)
          (table_gone t cs)))
      (untouched s.objects),
)
taken_back (add_column t c) s d taken = (
  refl,
  same_schema _ _ s
      (reject-kept (is_column t c.name) s.columns ((t, c) ∷ [])
        (column_kept t c.name s.columns (ground arith)) (rw (str_eq_refl t, str_eq_refl c.name)))
      (untouched s.objects),
)
taken_back (alter_nullable t n b) s (c, found, was) taken = (
  rw (find-revise t n (λ c. record c { nullable = b }) s.columns c (λ d. refl) found),
  same_schema _ _ s
      (revise-back t n (λ c. record c { nullable = b }) (λ c. record c { nullable = not b })
        s.columns c (λ d. refl) found (ap (λ x. record c { nullable = x }) (sym was)))
      (untouched s.objects),
)
taken_back (alter_type t n a b) s (c, found, was) taken = (
  rw (find-revise t n (λ c. record c { type = b }) s.columns c (λ d. refl) found),
  same_schema _ _ s
      (revise-back t n (λ c. record c { type = b }) (λ c. record c { type = a }) s.columns c
        (λ d. refl) found (ap (λ x. record c { type = x }) (sym was)))
      (untouched s.objects),
)
taken_back (create_index n t c u) s d taken =
    (refl, same_schema _ _ s refl (reject-added (index_of n) s.objects taken))
taken_back (create_foreign_key n t u c e) s d taken =
    (refl, same_schema _ _ s refl (reject-added (constraint_of n t) s.objects taken))
taken_back op s d taken = tt

pub plain_columns :
    (op : Operation) (s s' : Schema)
    → apply op s ≡ some s'
    → s'.columns ≡ columns_after op s.columns
unfolding effect
plain_columns op s s' done = ap (λ z. z.columns) (sym (apply_some op s s' done).1)

pub creates_stay : (op : Operation) (o : Object) → creates op ≡ some o → removes op o ≡ false
unfolding creates removes
creates_stay (drop_index n t) o h = cc
creates_stay (drop_constraint n t) o h = cc
creates_stay (drop_type_if_exists n) o h = cc
creates_stay op o h = refl

pub plain_creates :
    (op : Operation) (o : Object) (s s' : Schema)
    → creates op ≡ some o
    → apply op s ≡ some s'
    → has_object o s'.objects ≡ true
unfolding effect added
plain_creates op o s s' made done =
    let stays = creates_stay op o made in
    let last : has_object o (added op) ≡ true = rw (made, added, same_object_refl o) in
    ap (λ z. has_object o z.objects) (sym (apply_some op s s' done).1)
    ∙ has-reject (removes op) o (s.objects ++ added op) stays
        (has-append o s.objects (added op) last)

pub plain_keeps :
    (op : Operation) (o : Object) (s s' : Schema)
    → can_drop o op ≡ false
    → apply op s ≡ some s'
    → has_object o s.objects ≡ true
    → has_object o s'.objects ≡ true
unfolding effect
plain_keeps op o s s' keep done there =
    ap (λ z. has_object o z.objects) (sym (apply_some op s s' done).1)
    ∙ has-reject (removes op) o (s.objects ++ added op) (removes-can_drop op o keep)
        (has-front o s.objects (added op) there)

pub plain_once :
    (op : Operation) (o : Object) (s : Schema)
    → creates op ≡ some o
    → has_object o s.objects ≡ true
    → apply op s ≡ none
unfolding apply
plain_once op o s made there = rw (apply_created op o s made there)

pub plain_required :
    (t : String) (c : Column) (s : Schema)
    → is_among t s.populated ≡ true
    → c.nullable ≡ false
    → c.server_default ≡ none
    → apply (add_column t c) s ≡ none
unfolding apply is_refused
plain_required t c s rows null bare = elim (Bool-cases (is_some (find t c.name s.columns))) [
  | inl there ↦ rw there
  | inr new ↦ rw (new, rows, null, bare)
]

pub plain_inverse :
    (op back : Operation) (s s' : Schema)
    → inverse op ≡ some back
    → IsDescribed op s.columns
    → apply op s ≡ some s'
    → apply back s' ≡ some s
unfolding apply
plain_inverse op back s s' h d done =
    let (taken, same) = apply_some op s s' done in
    let (allowed, restored) = subst (IsTakenBack op s) h (taken_back op s d taken) in
    subst (λ z. apply back z ≡ some s) same (rw (allowed, restored))

pub plain_rows :
    (op : Operation) (t : String) (s s' : Schema)
    → keeps_rows op ≡ true
    → apply op s ≡ some s'
    → is_among t s'.populated ≡ is_among t s.populated
unfolding effect
plain_rows op t s s' keep done = ap (λ z. is_among t z.populated) (sym (apply_some op s s' done).1)

abbrev pub plain_engine : Engine
plain_engine = record {
  Catalog = Schema;
  apply = apply;
  columns = λ s. s.columns;
  has = λ o s. has_object o s.objects;
  has_rows = λ t s. is_among t s.populated;
  columns-apply = plain_columns;
  has-creates = plain_creates;
  has-keeps = plain_keeps;
  creates_once = plain_once;
  has_rows-apply = plain_rows;
  add_required = plain_required;
  apply-inverse = plain_inverse;
}

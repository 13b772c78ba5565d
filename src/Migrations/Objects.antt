-- ===== src/Migrations/Objects.antt =====
-- What is created twice.
use fair_drop.Common.{
  IsOneOf, one_of, ◌∙◌, ◌≡◌, refl, sym, inl, inr, ap, Bool, true, false, ◌&&◌, String, Option, none,
  some, List, [], ◌∷◌, ◌++◌, arith, str_eq, str_eq_iff, Bool-cases, and_true, Option-cases,
  if◌then◌else◌, All,
}
use fair_drop.Migrations.{
  Operation, Object, index_of, type_of, value_of, constraint_of, same_object, creates, can_drop,
  Migration,
}
use fair_drop.Migrations.Engine.{Engine, run, run-step, run-refused}
use fair_drop.Migrations.Versions.{
  add_order_models, add_moderation_statuses_and_moderator_id, add_verification_requests, versions,
  upgrades,
}

abbrev is_object : Object → Option Object → Bool
is_object o none = false
is_object o (some p) = same_object o p

-- Whether an object that is there is created before anything can drop it.
unfoldable recreates : Object → List Operation → Bool
unfolding creates can_drop
recreates o [] = false
recreates o (op ∷ ops) =
    let rest = recreates o ops in
    if is_object o (creates op) then true else if can_drop o op then false else rest

-- Whether an object is created, and then again before anything can drop it.
unfoldable repeats : List Operation → Bool
unfolding creates recreates
repeats [] = false
repeats (op ∷ ops) =
    let rest = repeats ops in
    if elim (creates op) [ none ↦ false | some o ↦ recreates o ops ] then true else rest

both_same :
    (make : String → String → Object) (a v b w : String)
    → (str_eq a b && str_eq v w) ≡ true
    → make a v ≡ make b w
both_same make a v b w h =
    let first = (str_eq_iff a b).0 (and_true (str_eq a b) (str_eq v w) h).0 in
    let second = (str_eq_iff v w).0 (and_true (str_eq a b) (str_eq v w) h).1 in cc

pub same_object_lem : (a b : Object) → same_object a b ≡ true → a ≡ b
same_object_lem (index_of a) (index_of b) h = ap index_of ((str_eq_iff a b).0 h)
same_object_lem (type_of a) (type_of b) h = ap type_of ((str_eq_iff a b).0 h)
same_object_lem (value_of a v) (value_of b w) h = both_same value_of a v b w h
same_object_lem (constraint_of a v) (constraint_of b w) h = both_same constraint_of a v b w h
same_object_lem _ _ h = cc

is_object_lem :
    (o : Object) (created : Option Object) → is_object o created ≡ true → created ≡ some o
is_object_lem o none h = cc
is_object_lem o (some p) h = ap some (sym (same_object_lem o p h))

module _ (engine : Engine) where
  recreates-none :
      (o : Object) (ops : List Operation) (s : engine.Catalog)
      → engine.has o s ≡ true
      → recreates o ops ≡ true
      → run engine ops s ≡ none
  unfolding recreates
  recreates-none o [] s there h = cc
  recreates-none o (op ∷ ops) s there h = elim (Bool-cases (is_object o (creates op))) [
    | inl again ↦
        run-refused engine op ops s
          (engine.creates_once op o s (is_object_lem o (creates op) again) there)
    | inr other ↦ elim (Bool-cases (can_drop o op)) [
      | inl drops ↦ absurd (ground arith)
      | inr keeps ↦ elim (Option-cases (engine.apply op s)) [
        | inl refused ↦ run-refused engine op ops s refused
        | inr (s1, done) ↦
            run-step engine op ops s s1 done
            ∙ recreates-none o ops s1 (engine.has-keeps op o s s1 keeps done there) (ground arith)
      ]
    ]
  ]

  repeats-none :
      (ops : List Operation) (s : engine.Catalog) → repeats ops ≡ true → run engine ops s ≡ none
  unfolding repeats
  repeats-none [] s h = cc
  repeats-none (op ∷ ops) s h = elim (Option-cases (engine.apply op s)) [
    | inl refused ↦ run-refused engine op ops s refused
    | inr (s1, done) ↦ elim (Option-cases (creates op)) [
      | inl nothing ↦ run-step engine op ops s s1 done ∙ repeats-none ops s1 (ground arith)
      | inr (o, made) ↦ elim (Bool-cases (recreates o ops)) [
        | inl again ↦
            run-step engine op ops s s1 done
            ∙ recreates-none o ops s1 (engine.has-creates op o s s1 made done) again
        | inr once ↦ run-step engine op ops s s1 done ∙ repeats-none ops s1 (ground arith)
      ]
    ]
  ]

  -- The migrations whose types or values their `downgrade` leaves behind.
  abbrev pub leaving : List Migration
  leaving =
      add_order_models ∷ add_moderation_statuses_and_moderator_id ∷ add_verification_requests ∷ []

  -- No database goes from the base to the head: the index of the owners is created twice.
  pub upgrades-refused : (s : engine.Catalog) → run engine (upgrades versions) s ≡ none
  unfolding repeats
  upgrades-refused s = repeats-none (upgrades versions) s refl

  abbrev IsRepeating : Migration → Type 0
  IsRepeating m = repeats (m.upgrade ++ m.downgrade ++ m.upgrade) ≡ true

  leaving_repeats : All IsRepeating leaving
  unfolding repeats
  leaving_repeats = (refl, (refl, (refl, tt)))

  -- After the downgrade of one of these migrations, its upgrade is refused, on every database: a type
  -- or a value that it creates is there.
  pub upgrade-not_repeatable :
      (m : Migration) (s : engine.Catalog)
      → IsOneOf m leaving
      → run engine (m.upgrade ++ m.downgrade ++ m.upgrade) s ≡ none
  upgrade-not_repeatable m s one =
      repeats-none (m.upgrade ++ m.downgrade ++ m.upgrade) s
        (one_of IsRepeating leaving leaving_repeats m one)

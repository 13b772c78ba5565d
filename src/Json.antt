-- ===== src/Json.antt =====
-- JSON values, as `model_dump(mode='json')` makes them, and their equality (`!=` of Python).
use fair_drop.Common.{
  ℕ, ◌≡◌, refl, Bool, true, false, ◌&&◌, String, List, ◌==◌, ==_refl, str_eq, str_eq_refl,
}

mutual
  pub data Json : Type 0 where
    null : Json
    boolean : Bool → Json
    str : String → Json
    num : ℕ → Json
    arr : Items → Json
    obj : Fields → Json

  pub data Items : Type 0 where
    nil : Items
    cons : Json → Items → Items

  pub data Fields : Type 0 where
    end : Fields
    field : String → Json → Fields → Fields

-- A Python dict with string keys, in the order of insertion.
abbrev pub Dict : Type 0
Dict = List (String × Json)

abbrev bool_eq : Bool → Bool → Bool
bool_eq true b = b
bool_eq false true = false
bool_eq false false = true

unfoldable mutual
  pub json_eq : Json → Json → Bool
  json_eq null null = true
  json_eq (boolean a) (boolean b) = bool_eq a b
  json_eq (str s) (str t) = str_eq s t
  json_eq (num m) (num n) = m == n
  json_eq (arr xs) (arr ys) = items_eq xs ys
  json_eq (obj xs) (obj ys) = fields_eq xs ys
  json_eq _ _ = false

  pub items_eq : Items → Items → Bool
  items_eq nil nil = true
  items_eq (cons x xs) (cons y ys) = json_eq x y && items_eq xs ys
  items_eq _ _ = false

  pub fields_eq : Fields → Fields → Bool
  fields_eq end end = true
  fields_eq (field k x xs) (field l y ys) = str_eq k l && (json_eq x y && fields_eq xs ys)
  fields_eq _ _ = false

mutual
  unfolding json_eq items_eq fields_eq

  eq_refl : (x : Json) → json_eq x x ≡ true
  eq_refl null = refl
  eq_refl (boolean true) = refl
  eq_refl (boolean false) = refl
  eq_refl (str s) = str_eq_refl s
  eq_refl (num n) = ==_refl n
  eq_refl (arr xs) = items_refl xs
  eq_refl (obj xs) = fields_refl xs

  items_refl : (xs : Items) → items_eq xs xs ≡ true
  items_refl nil = refl
  items_refl (cons x xs) = rw (eq_refl x) (items_refl xs)

  fields_refl : (xs : Fields) → fields_eq xs xs ≡ true
  fields_refl end = refl
  fields_refl (field k x xs) = rw (str_eq_refl k, eq_refl x) (fields_refl xs)

pub json_eq_refl : (x : Json) → json_eq x x ≡ true
json_eq_refl x = eq_refl x

-- ===== src/Sellers/Shown.antt =====
-- What a seller sees of the orders.
use fair_drop.Common.{
  ℕ, ◌≡◌, refl, inl, inr, Bool, true, false, ◌&&◌, Option, none, ◌==◌, leb, arith, [], ◌∷◌, All,
  Bool-cases,
}
use fair_drop.Common.Table.{Table, select}
use fair_drop.Common.Table.Groups.{sort_desc, insert_desc}
use fair_drop.Models.{Order, OrderItem, OrderStatus}
use fair_drop.Database.{Session, is_empty}
use fair_drop.Buyers.{has_status}
use fair_drop.Sellers.{
  SellerOrderRead, is_owned, my_items, joined, hides_address, seller_orders, get_my_orders,
}

-- What a seller may see of an order: items of the seller's products alone, at least one of them, and
-- no address of an order that is pending, failed or cancelled.
pub record IsShown (user_id : ℕ) (s : Session) (row : ℕ × SellerOrderRead) : Type 0 where
  pub owned :
      All
        (λ item. (is_owned user_id s item.1 ≡ true) × (item.1.order_id ≡ row.0))
        row.1.seller_items
  pub some_item : is_empty row.1.seller_items ≡ false
  pub address : hides_address row.1.status ≡ true → row.1.shipping_address ≡ none

my_items_owned :
    (user_id order_id : ℕ) (s : Session) (t : Table OrderItem)
    → All
        (λ item. (is_owned user_id s item.1 ≡ true) × (item.1.order_id ≡ order_id))
        (select (λ item. item.order_id == order_id && is_owned user_id s item) t)
unfolding select
my_items_owned user_id order_id s [] = tt
my_items_owned user_id order_id s ((i, item) ∷ t) =
    elim (Bool-cases (item.order_id == order_id && is_owned user_id s item)) [
      | inr miss ↦ rw miss (my_items_owned user_id order_id s t)
      | inl hit ↦ rw hit ((ground arith, ground arith), my_items_owned user_id order_id s t)
    ]

abbrev HasItem : ℕ → Session → ℕ × Order → Type 0
HasItem user_id s row = is_empty (my_items user_id s row.0) ≡ false

joined-HasItem :
    (user_id : ℕ) (s : Session) (t : Table Order) → All (HasItem user_id s) (joined user_id s t)
unfolding joined
joined-HasItem user_id s [] = tt
joined-HasItem user_id s ((i, o) ∷ t) = elim (Bool-cases (is_empty (my_items user_id s i))) [
  | inl empty ↦ rw empty (joined-HasItem user_id s t)
  | inr there ↦ rw there (there, joined-HasItem user_id s t)
]

module _ (P : ℕ × Order → Type 0) where
  select-All : (p : Order → Bool) (t : Table Order) → All P t → All P (select p t)
  unfolding select
  select-All p [] h = tt
  select-All p ((i, o) ∷ t) h = elim (Bool-cases (p o)) [
    | inl hit ↦ rw hit (h.0, select-All p t h.1)
    | inr miss ↦ rw miss (select-All p t h.1)
  ]

  insert_desc-All :
      (f : Order → ℕ) (v : ℕ × Order) (t : Table Order) → P v → All P t → All P (insert_desc f v t)
  unfolding insert_desc
  insert_desc-All f v [] h hs = (h, tt)
  insert_desc-All f v (w ∷ t) h hs = elim (Bool-cases (leb (f w.1) (f v.1))) [
    | inl first ↦ rw first (h, hs)
    | inr later ↦ rw later (hs.0, insert_desc-All f v t h hs.1)
  ]

  sort_desc-All : (f : Order → ℕ) (t : Table Order) → All P t → All P (sort_desc f t)
  unfolding sort_desc
  sort_desc-All f [] h = tt
  sort_desc-All f (v ∷ t) h = insert_desc-All f v (sort_desc f t) h.0 (sort_desc-All f t h.1)

seller_orders-IsShown :
    (user_id : ℕ) (s : Session) (t : Table Order)
    → All (HasItem user_id s) t
    → All (IsShown user_id s) (seller_orders user_id s t)
unfolding seller_orders
seller_orders-IsShown user_id s [] h = tt
seller_orders-IsShown user_id s ((i, o) ∷ t) h = (
  record {
    owned = my_items_owned user_id i s s.order_items;
    some_item = h.0;
    address = λ e. rw e refl;
  },
  seller_orders-IsShown user_id s t h.1,
)

-- Every order in a seller's list has an item of the seller's products, shows such items of that
-- order alone, and shows no address while it is pending, failed or cancelled.
pub get_my_orders-IsShown :
    (user_id : ℕ) (status : Option OrderStatus) (s : Session)
    → All (IsShown user_id s) (get_my_orders user_id status s)
unfolding get_my_orders
get_my_orders-IsShown user_id status s =
    let mine = select (has_status status) (joined user_id s s.orders) in
    seller_orders-IsShown user_id s (sort_desc (λ o. o.created_at) mine) (
      sort_desc-All (HasItem user_id s) (λ o. o.created_at) mine
        (select-All (HasItem user_id s) (has_status status) (joined user_id s s.orders)
          (joined-HasItem user_id s s.orders)))

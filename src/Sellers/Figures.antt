-- ===== src/Sellers/Figures.antt =====
-- A seller's figures count the seller's lists.
use fair_drop.Common.{
  ℕ, ◌≡◌, refl, ap, ◌∙◌, sym, Bool, true, ◌&&◌, none, some, ◌==◌, length, arith, [], ◌∷◌,
}
use fair_drop.Common.Table.{Table, select}
use fair_drop.Common.Table.Groups.{
  count_of, sort_desc, count_of-group, total-group, length-sort_desc, select-select,
}
use fair_drop.Models.{
  Product, ProductStatus, active, rejected, product_status_index, Order, OrderStatus,
  order_status_index,
}
use fair_drop.Database.{Session}
use fair_drop.Inventory.Service.{matches_status}
use fair_drop.Buyers.{has_status}
use fair_drop.Sellers.{
  get_my_products, joined, seller_orders, get_my_orders, product_counts, order_counts, get_my_stats,
}

count_of-product_counts :
    (user_id : ℕ) (status : ProductStatus) (s : Session)
    → count_of (product_status_index status) (product_counts user_id s)
      ≡ length (get_my_products user_id (some status) s)
unfolding get_my_products
count_of-product_counts user_id status s =
    count_of-group (λ p. product_status_index p.status) (product_status_index status)
      (select (λ p. p.owner_id == user_id) s.products)
    ∙ ap length (
        select-select (λ p. p.owner_id == user_id)
          (λ p. product_status_index p.status == product_status_index status) s.products)
    ∙ sym (
        length-sort_desc (λ p. p.created_at)
          (select (λ p. p.owner_id == user_id && matches_status (some status) p) s.products))

select-true : (p : Product → Bool) (t : Table Product) → select p t ≡ select (λ o. p o && true) t
unfolding select
select-true p [] = refl
select-true p ((i, o) ∷ t) = ground (arith, select-true p t)

length-seller_orders :
    (user_id : ℕ) (s : Session) (t : Table Order) → length (seller_orders user_id s t) ≡ length t
unfolding seller_orders
length-seller_orders user_id s [] = refl
length-seller_orders user_id s ((i, o) ∷ t) = ground (arith, length-seller_orders user_id s t)

count_of-order_counts :
    (user_id : ℕ) (status : OrderStatus) (s : Session)
    → count_of (order_status_index status) (order_counts user_id s)
      ≡ length (get_my_orders user_id (some status) s)
unfolding get_my_orders
count_of-order_counts user_id status s =
    let mine = select (has_status (some status)) (joined user_id s s.orders) in
    count_of-group (λ o. order_status_index o.status) (order_status_index status)
      (joined user_id s s.orders)
    ∙ sym (length-sort_desc (λ o. o.created_at) mine)
    ∙ sym (length-seller_orders user_id s (sort_desc (λ o. o.created_at) mine))

-- The figures are the lengths of the lists that `get_my_products` and `get_my_orders` return with
-- the same status, and the total is that of the products without a status.
pub get_my_stats-get_my_products :
    (user_id : ℕ) (s : Session)
    → get_my_stats user_id s ≡ record {
      total_products = length (get_my_products user_id none s);
      active_products = length (get_my_products user_id (some active) s);
      pending_moderation =
          length (get_my_products user_id (some ProductStatus.pending_moderation) s);
      rejected_products = length (get_my_products user_id (some rejected) s);
      pending_orders = length (get_my_orders user_id (some OrderStatus.pending) s);
      paid_orders = length (get_my_orders user_id (some OrderStatus.paid) s);
    }
unfolding get_my_stats get_my_products
get_my_stats-get_my_products user_id s = cc (
  count_of-product_counts user_id active s,
  count_of-product_counts user_id ProductStatus.pending_moderation s,
  count_of-product_counts user_id rejected s,
  count_of-order_counts user_id OrderStatus.pending s,
  count_of-order_counts user_id OrderStatus.paid s,
  total-group (λ p. product_status_index p.status) (select (λ p. p.owner_id == user_id) s.products)
      ∙ ap length (select-true (λ p. p.owner_id == user_id) s.products)
      ∙ sym (
          length-sort_desc (λ p. p.created_at)
            (select (λ p. p.owner_id == user_id && matches_status none p) s.products)),
)

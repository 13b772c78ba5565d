-- ===== src/Buyers/Figures.antt =====
-- A buyer's figures count the buyer's lists.
use fair_drop.Common.{
  ℕ, ◌≡◌, refl, ap, ◌∙◌, sym, Bool, true, ◌&&◌, none, some, ◌==◌, length, arith, [], ◌∷◌,
}
use fair_drop.Common.Table.{Table, select}
use fair_drop.Common.Table.Groups.{
  count_of, count_of-group, total-group, length-sort_desc, select-select,
}
use fair_drop.Models.{Order, OrderStatus, order_status_index}
use fair_drop.Database.{Session}
use fair_drop.Buyers.{has_status, get_my_orders, order_counts, get_my_stats}

count_of-order_counts :
    (user_id : ℕ) (status : OrderStatus) (s : Session)
    → count_of (order_status_index status) (order_counts user_id s)
      ≡ length (get_my_orders user_id (some status) s)
unfolding get_my_orders
count_of-order_counts user_id status s =
    count_of-group (λ o. order_status_index o.status) (order_status_index status)
      (select (λ o. o.user_id == user_id) s.orders)
    ∙ ap length (
        select-select (λ o. o.user_id == user_id)
          (λ o. order_status_index o.status == order_status_index status) s.orders)
    ∙ sym (
        length-sort_desc (λ o. o.created_at)
          (select (λ o. o.user_id == user_id && has_status (some status) o) s.orders))

select-true : (p : Order → Bool) (t : Table Order) → select p t ≡ select (λ o. p o && true) t
unfolding select
select-true p [] = refl
select-true p ((i, o) ∷ t) = ground (arith, select-true p t)

-- The total and the figures for each status are the lengths of the lists that `get_my_orders`
-- returns without a status and with that status.
pub get_my_stats-get_my_orders :
    (user_id : ℕ) (s : Session)
    → get_my_stats user_id s ≡ record {
      total_orders = length (get_my_orders user_id none s);
      pending_orders = length (get_my_orders user_id (some OrderStatus.pending) s);
      paid_orders = length (get_my_orders user_id (some OrderStatus.paid) s);
      shipped_orders = length (get_my_orders user_id (some OrderStatus.shipped) s);
    }
unfolding get_my_stats get_my_orders
get_my_stats-get_my_orders user_id s = cc (
  count_of-order_counts user_id OrderStatus.pending s,
  count_of-order_counts user_id OrderStatus.paid s,
  count_of-order_counts user_id OrderStatus.shipped s,
  total-group (λ o. order_status_index o.status) (select (λ o. o.user_id == user_id) s.orders)
      ∙ ap length (select-true (λ o. o.user_id == user_id) s.orders)
      ∙ sym (
          length-sort_desc (λ o. o.created_at)
            (select (λ o. o.user_id == user_id && has_status none o) s.orders)),
)

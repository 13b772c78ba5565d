-- ===== src/Buyers.antt =====
-- app/services/buyer_user/service.py: a buyer's orders, and how many there are. In the groups a
-- status stands by its place in the enumeration.
pub mod Figures
use fair_drop.Common.{ℕ, Bool, true, ◌&&◌, Option, none, some, ◌==◌}
use fair_drop.Common.Table.{Table, select}
use fair_drop.Common.Table.Groups.{group, count_of, total, sort_desc}
use fair_drop.Models.{Order, OrderStatus, order_status_index}
use fair_drop.Database.{Session}

-- `if status: stmt.where(Order.status == status)`
abbrev pub has_status : Option OrderStatus → Order → Bool
has_status none o = true
has_status (some status) o = order_status_index o.status == order_status_index status

-- `get_my_orders`, the newest order first. The items are loaded with `items_of`.
unfoldable pub get_my_orders : ℕ → Option OrderStatus → Session → Table Order
get_my_orders user_id status s =
    sort_desc (λ o. o.created_at)
      (select (λ o. o.user_id == user_id && has_status status o) s.orders)

pub record BuyerStats : Type 0 where
  pub total_orders : ℕ
  pub pending_orders : ℕ
  pub paid_orders : ℕ
  pub shipped_orders : ℕ

-- `SELECT status, count(id) … GROUP BY status`
abbrev pub order_counts : ℕ → Session → Table ℕ
order_counts user_id s =
    group (λ o. order_status_index o.status) (select (λ o. o.user_id == user_id) s.orders)

unfoldable pub get_my_stats : ℕ → Session → BuyerStats
get_my_stats user_id s =
    let counts = order_counts user_id s in
    record {
      total_orders = total counts;
      pending_orders = count_of (order_status_index OrderStatus.pending) counts;
      paid_orders = count_of (order_status_index OrderStatus.paid) counts;
      shipped_orders = count_of (order_status_index OrderStatus.shipped) counts;
    }

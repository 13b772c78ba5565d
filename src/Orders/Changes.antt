-- ===== src/Orders/Changes.antt =====
-- What becomes of the table of orders: a pending order is added, or a pending one is settled.
use fair_drop.Common.{ℕ, ◌≡◌, ◌⊎◌, sym, subst, none, some, [], ◌∷◌, ◌++◌}
use fair_drop.Common.Table.{Table, get, put}
use fair_drop.Models.{Order, OrderStatus}

-- What is paid or cancelled.
abbrev pub IsSettlement : Order → Order → Type 0
IsSettlement o o' =
    (o' ≡ record o { status = OrderStatus.paid })
    ⊎ (o' ≡ record o { status = OrderStatus.cancelled })

-- The orders as a state machine: a pending one is added, or a pending one is settled.
pub data Change (t t' : Table Order) : Type 0 where
  added :
      (id : ℕ) (o : Order)
      → get id t ≡ none
      → o.status ≡ OrderStatus.pending
      → t' ≡ t ++ (id, o) ∷ []
      → Change t t'
  settled :
      (id : ℕ) (o o' : Order)
      → get id t ≡ some o
      → o.status ≡ OrderStatus.pending
      → IsSettlement o o'
      → t' ≡ put id o' t
      → Change t t'

pub data Changes (t : Table Order) : Table Order → Type 0 where
  none_yet : Changes t t
  more : {u v : Table Order} → Changes t u → Change u v → Changes t v

pub Changes-trans : {t u v : Table Order} → Changes t u → Changes u v → Changes t v
Changes-trans a none_yet = a
Changes-trans a (more b c) = more (Changes-trans a b) c

pub one_change : {t u : Table Order} → Change t u → Changes t u
one_change c = more none_yet c

pub same_orders : {t u : Table Order} → u ≡ t → Changes t u
same_orders {t} {u} e = subst (Changes t) (sym e) none_yet

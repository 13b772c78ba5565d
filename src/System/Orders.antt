-- ===== src/System/Orders.antt =====
-- The orders in a history of the system: they are created pending, and settled once.
use fair_drop.Common.{
  ℕ, ◌≡◌, ◌⊎◌, refl, sym, subst, ap, ◌∙◌, inl, inr, some, arith, ◌==◌, ==_iff, Bool-cases,
}
use fair_drop.Common.Table.{Table, get}
use fair_drop.Common.Table.Laws.{get-put, get-append}
use fair_drop.Models.{Order, OrderStatus}
use fair_drop.Database.{Session}
use fair_drop.Inventory.Internal.Outcome.{restocked}
use fair_drop.Inventory.Reserve.Outcome.{reserve_items-ok}
use fair_drop.Orders.Service.Outcome.{
  IsCreated, IsSettled, create-ok, confirm_order_payment-ok, cancel_order-ok, as_they_are,
}
use fair_drop.Lifecycle.{IsConsistent}
use fair_drop.System.{Step, reserve, order, pay, cancel, release, Reach, here, next}
use fair_drop.System.Oversell.{Reach-IsConsistent}
use fair_drop.Orders.Changes.{
  IsSettlement, Change, added, settled, Changes, none_yet, more, Changes-trans, one_change,
  same_orders,
}
use fair_drop.Expiry.Loaded.{release_turn-Changes}

Step-Changes : {s s' : Session} → IsConsistent s → Step s s' → Changes s.orders s'.orders
Step-Changes {s} {s'} c (reserve settings now id user_id key d r h) =
    let (p, known, fits, new, made, after) =
      reserve_items-ok settings now id user_id key d s r s' h in
    same_orders (ap (λ x. x.orders) after)
Step-Changes {s} {s'} c (order now order_id item_id u d o h) =
    let e : IsCreated now order_id item_id u d s s' o =
      create-ok now order_id item_id u d s s' o h in
    one_change (added order_id o e.fresh (rw (e.order) refl) e.orders)
Step-Changes {s} {s'} c (pay order_id u o h) =
    let e : IsSettled OrderStatus.paid OrderStatus.completed as_they_are order_id u s s' o =
      confirm_order_payment-ok order_id u s s' o c.reservations_keyed h in
    one_change (settled order_id e.o o e.found e.waiting (inl e.result) e.orders)
Step-Changes {s} {s'} c (cancel order_id u o h) =
    let e : IsSettled OrderStatus.cancelled OrderStatus.cancelled restocked order_id u s s' o =
      cancel_order-ok order_id u s s' o c.reservations_keyed h in
    one_change (settled order_id e.o o e.found e.waiting (inr e.result) e.orders)
Step-Changes {s} {s'} c (release loaded id e) = rw e (release_turn-Changes loaded id s c)

pub Reach-Changes : {s t : Session} → IsConsistent s → Reach s t → Changes s.orders t.orders
Reach-Changes c here = none_yet
Reach-Changes {s} c (next {t} {u} r st) =
    Changes-trans (Reach-Changes c r) (Step-Changes (Reach-IsConsistent c r) st)

-- What may have become of an order.
abbrev pub IsKeptOrSettled : Order → Order → Type 0
IsKeptOrSettled o o' = (o' ≡ o) ⊎ ((o.status ≡ OrderStatus.pending) × IsSettlement o o')

settlement-over : (o o' : Order) → IsSettlement o o' → o'.status ≡ OrderStatus.pending → ⊥
settlement-over o o' (inl paid) waiting = ground (arith, ap (λ x. x.status) paid)
settlement-over o o' (inr cancelled) waiting = ground (arith, ap (λ x. x.status) cancelled)

kept_twice : (o p q : Order) → IsKeptOrSettled o p → IsKeptOrSettled p q → IsKeptOrSettled o q
kept_twice o p q first (inl same) = subst (IsKeptOrSettled o) (sym same) first
kept_twice o p q (inl same) (inr (waiting, settlement)) =
    inr (ap (λ x. x.status) (sym same) ∙ waiting, subst (λ x. IsSettlement x q) same settlement)
kept_twice o p q (inr (_, over)) (inr (waiting, settlement)) =
    absurd (settlement-over o p over waiting)

-- An order after a change.
Change-IsKeptOrSettled :
    (t u : Table Order) (id : ℕ) (o : Order)
    → Change t u
    → get id t ≡ some o
    → (o' : Order) × (get id u ≡ some o') × IsKeptOrSettled o o'
Change-IsKeptOrSettled t u id o (added j p fresh waiting after) found =
    let kept : get id u ≡ some o = elim (Bool-cases (j == id)) [
      | inl same ↦ absurd (let own = (==_iff j id).0 same in ground arith)
      | inr other ↦ ap (get id) after ∙ get-append id j p t fresh ∙ rw other found
    ] in
    (o, kept, inl refl)
Change-IsKeptOrSettled t u id o (settled j p p' there waiting settlement after) found =
    let now = ap (get id) after ∙ get-put id j p' p t there in
    elim (Bool-cases (j == id)) [
      | inl same ↦
          let own = (==_iff j id).0 same in
          let this : p ≡ o = cc in
          (
            p',
            now ∙ rw same,
            inr (
              ap (λ x. x.status) (sym this) ∙ waiting,
              subst (λ x. IsSettlement x p') this settlement,
            ),
          )
      | inr other ↦ (o, now ∙ rw other found, inl refl)
    ]

Changes-IsKeptOrSettled :
    (t u : Table Order) (id : ℕ) (o : Order)
    → Changes t u
    → get id t ≡ some o
    → (o' : Order) × (get id u ≡ some o') × IsKeptOrSettled o o'
Changes-IsKeptOrSettled t u id o none_yet found = (o, found, inl refl)
Changes-IsKeptOrSettled t u id o (more {u = v} before last) found =
    let (p, at, first) = Changes-IsKeptOrSettled t v id o before found in
    let (q, there, second) = Change-IsKeptOrSettled v u id p last at in
    (q, there, kept_twice o p q first second)

-- However requests and sweeps follow one another, from consistent tables every order stays, as it
-- was or, where it was pending, paid or cancelled, with its user, its amount and all else as they
-- were.
pub Reach-IsKeptOrSettled :
    {s t : Session} (id : ℕ) (o : Order)
    → IsConsistent s
    → get id s.orders ≡ some o
    → Reach s t
    → (o' : Order) × (get id t.orders ≡ some o') × IsKeptOrSettled o o'
Reach-IsKeptOrSettled {s} {t} id o c found r =
    Changes-IsKeptOrSettled s.orders t.orders id o (Reach-Changes c r) found

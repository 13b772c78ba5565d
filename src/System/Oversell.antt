-- ===== src/System/Oversell.antt =====
-- What a history keeps: consistency always, and the units of each product where no sweep works on a
-- product that has changed since it loaded it.
use fair_drop.Common.{ℕ, ◌≤◌, ◌≡◌, true, arith}
use fair_drop.Common.Table.{get, sum}
use fair_drop.Database.{Session, is_some}
use fair_drop.Stock.{stock, held}
use fair_drop.Stock.Conservation.{Conserves-refl}
use fair_drop.Lifecycle.{IsConsistent}
use fair_drop.Lifecycle.Steps.{
  IsSafe, reserve_items-IsSafe, create_order-IsSafe, confirm_order_payment-IsSafe,
  cancel_order-IsSafe,
}
use fair_drop.Expiry.Sweep.{IsSafe-trans}
use fair_drop.Expiry.Loaded.{release_turn-IsSafe, release_turn-IsConsistent}
use fair_drop.System.{
  Step, reserve, order, pay, cancel, release, Reach, here, next, IsCurrentStep, IsUndisturbed,
}

pub Step-IsConsistent : {s s' : Session} → IsConsistent s → Step s s' → IsConsistent s'
Step-IsConsistent {s} {s'} c (reserve settings now id user_id key d r h) =
    (reserve_items-IsSafe settings now id user_id key d s s' r c h).consistent
Step-IsConsistent {s} {s'} c (order now order_id item_id u d o h) =
    (create_order-IsSafe now order_id item_id u d s s' o c h).consistent
Step-IsConsistent {s} {s'} c (pay order_id u o h) =
    (confirm_order_payment-IsSafe order_id u s s' o c h).consistent
Step-IsConsistent {s} {s'} c (cancel order_id u o h) =
    (cancel_order-IsSafe order_id u s s' o c h).consistent
Step-IsConsistent {s} {s'} c (release loaded id e) = rw e (release_turn-IsConsistent loaded id s c)

-- Whatever the sweeps have loaded, reservations and orders stay consistent.
pub Reach-IsConsistent : {s t : Session} → IsConsistent s → Reach s t → IsConsistent t
Reach-IsConsistent c here = c
Reach-IsConsistent c (next r st) = Step-IsConsistent (Reach-IsConsistent c r) st

Step-IsSafe : {s s' : Session} → IsConsistent s → (st : Step s s') → IsCurrentStep st → IsSafe s s'
Step-IsSafe {s} {s'} c (reserve settings now id user_id key d r h) _ =
    reserve_items-IsSafe settings now id user_id key d s s' r c h
Step-IsSafe {s} {s'} c (order now order_id item_id u d o h) _ =
    create_order-IsSafe now order_id item_id u d s s' o c h
Step-IsSafe {s} {s'} c (pay order_id u o h) _ = confirm_order_payment-IsSafe order_id u s s' o c h
Step-IsSafe {s} {s'} c (cancel order_id u o h) _ = cancel_order-IsSafe order_id u s s' o c h
Step-IsSafe {s} {s'} c (release loaded id e) current =
    rw e (release_turn-IsSafe loaded id s c current)

-- However reservations, orders, payments, cancellations and the commits of sweeps follow one
-- another, from consistent tables they stay consistent, every product stays, and the units on sale
-- and held of each product keep their number, if no sweep releases a reservation of a product that
-- has changed since the sweep loaded it.
pub Reach-IsSafe : {s t : Session} → IsConsistent s → (r : Reach s t) → IsUndisturbed r → IsSafe s t
Reach-IsSafe {s} c here _ = record { consistent = c; conserves = Conserves-refl s }
Reach-IsSafe {s} c (next {t} {u} r st) (calm, current) =
    let before : IsSafe s t = Reach-IsSafe c r calm in
    IsSafe-trans s t u before (Step-IsSafe before.consistent st current)

-- In such a history, the pending and completed reservations of a product never hold more units than
-- the product had on sale and held at the start.
pub Reach-no_oversell :
    {s t : Session} (id : ℕ)
    → IsConsistent s
    → is_some (get id s.products) ≡ true
    → (r : Reach s t) → IsUndisturbed r
    → sum (held id) t.reservations ≤ stock id s
Reach-no_oversell id c known r calm = omega (arith, (Reach-IsSafe c r calm).conserves.same id known)

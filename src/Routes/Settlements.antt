-- ===== src/Routes/Settlements.antt =====
-- Requests to pay for orders and to cancel them that overlap.
use fair_drop.Common.{
  ℕ, ◌≡◌, ◌≢◌, refl, sym, subst, ◌∙◌, inl, inr, Bool, true, false, some, List, arith, ◌==◌, ==_refl,
  Bool-cases,
}
use fair_drop.Common.Table.{get, put}
use fair_drop.Common.Table.Laws.{get-put}
use fair_drop.Exceptions.{Result, ok, Result-cases}
use fair_drop.Models.{User, Order, OrderStatus, is_pending}
use fair_drop.Database.{Session}
use fair_drop.Idempotency.{Cache, HttpRequest, fresh, Codec}
use fair_drop.Idempotency.Overlap.{waiting, answered, Event, World, perform_all}
use fair_drop.Idempotency.Overlap.Once.{IsThrough, same_request}
use fair_drop.Inventory.Internal.Outcome.{restocked}
use fair_drop.Orders.Service.{confirm_order_payment, cancel_order}
use fair_drop.Orders.Service.Outcome.{
  IsSettled, confirm_order_payment-ok, cancel_order-ok, as_they_are,
}
use fair_drop.Orders.Settlement.{IsRefused, refused}
use fair_drop.Lifecycle.{IsConsistent}
use fair_drop.Lifecycle.Steps.{confirm_order_payment-IsSafe, cancel_order-IsSafe}
use fair_drop.Routes.{closed}
use fair_drop.Routes.Repeated.{closed-ok}

-- A request to pay for an order, or else to cancel it.
pub record SettlementRequest : Type 0 where
  pub pays : Bool
  pub order_id : ℕ
  pub user : User
  pub http : HttpRequest

abbrev pub settle : Bool → ℕ → User → Session → Result (Order × Session)
settle true = confirm_order_payment
settle false = cancel_order

-- The order is not pending any more.
abbrev IsOver : ℕ → Session → Type 0
IsOver order_id s = (o : Order) × (get order_id s.orders ≡ some o) × (is_pending o.status ≡ false)

-- What a request that goes through leaves of the orders.
record IsWritten (order_id : ℕ) (s s' : Session) (o' : Order) : Type 0 where
  old : Order
  found : get order_id s.orders ≡ some old
  orders : s'.orders ≡ put order_id o' s.orders
  over : is_pending o'.status ≡ false
  consistent : IsConsistent s'

settle-ok :
    (pays : Bool) (order_id : ℕ) (u : User) (s s' : Session) (o' : Order)
    → IsConsistent s
    → settle pays order_id u s ≡ ok (o', s')
    → IsWritten order_id s s' o'
settle-ok true order_id u s s' o' c h =
    let e : IsSettled OrderStatus.paid OrderStatus.completed as_they_are order_id u s s' o' =
      confirm_order_payment-ok order_id u s s' o' c.reservations_keyed h in
    record {
      old = e.o;
      found = e.found;
      orders = e.orders;
      over = rw (e.result) refl;
      consistent = (confirm_order_payment-IsSafe order_id u s s' o' c h).consistent;
    }
settle-ok false order_id u s s' o' c h =
    let e : IsSettled OrderStatus.cancelled OrderStatus.cancelled restocked order_id u s s' o' =
      cancel_order-ok order_id u s s' o' c.reservations_keyed h in
    record {
      old = e.o;
      found = e.found;
      orders = e.orders;
      over = rw (e.result) refl;
      consistent = (cancel_order-IsSafe order_id u s s' o' c h).consistent;
    }

settle_over :
    (pays : Bool) (order_id : ℕ) (u : User) (s : Session) (o : Order)
    → get order_id s.orders ≡ some o
    → is_pending o.status ≡ false
    → IsRefused (settle pays order_id u s)
settle_over true order_id u s o found past = (refused order_id u s o found past).0
settle_over false order_id u s o found past = (refused order_id u s o found past).1

-- An order that is over stays over.
written-IsOver :
    (order_id l : ℕ) (s s' : Session) (o' : Order)
    → IsWritten order_id s s' o'
    → IsOver l s
    → IsOver l s'
written-IsOver order_id l s s' o' e (o, found, past) =
    let now = get-put l order_id o' e.old s.orders e.found in
    elim (Bool-cases (order_id == l)) [
      | inl same ↦ (o', rw (e.orders) (now ∙ rw same), e.over)
      | inr other ↦ (o, rw (e.orders) (now ∙ rw other found), past)
    ]

module _ (calls : ℕ → SettlementRequest) where
  -- The handler of each request.
  abbrev pub handler : ℕ → ℕ → Session → Result Order × Session
  handler i now s = let c = calls i in closed s (settle c.pays c.order_id c.user s)

  keeps : (i now : ℕ) (s : Session) → IsConsistent s → IsConsistent (handler i now s).1
  keeps i now s c =
      let k = calls i in
      elim (Result-cases (settle k.pays k.order_id k.user s)) [
        | inl ((o', s'), done) ↦
            rw done ((settle-ok k.pays k.order_id k.user s s' o' c done).consistent)
        | inr (e, failed) ↦ rw failed c
      ]

  stays : (i now l : ℕ) (s : Session) → IsConsistent s → IsOver l s → IsOver l (handler i now s).1
  stays i now l s c over =
      let k = calls i in
      elim (Result-cases (settle k.pays k.order_id k.user s)) [
        | inl ((o', s'), done) ↦ rw done (
            written-IsOver k.order_id l s s' o' (settle-ok k.pays k.order_id k.user s s' o' c done)
              over)
        | inr (e, failed) ↦ rw failed over
      ]

  takes :
      (i now : ℕ) (s s' : Session) (o' : Order)
      → IsConsistent s
      → handler i now s ≡ (ok o', s')
      → IsOver (calls i).order_id s'
  takes i now s s' o' c h =
      let k = calls i in
      let e =
        settle-ok k.pays k.order_id k.user s s' o' c
          (closed-ok s s' (settle k.pays k.order_id k.user s) o' h) in
      (
        o',
        rw (e.orders)
            (get-put k.order_id k.order_id o' e.old s.orders e.found ∙ rw (==_refl k.order_id)),
        e.over,
      )

  refuses :
      (i now : ℕ) (s s' : Session) (o' : Order)
      → IsOver (calls i).order_id s
      → handler i now s ≢ (ok o', s')
  refuses i now s s' o' (o, found, past) h =
      let k = calls i in
      elim (settle_over k.pays k.order_id k.user s o found past) [
        | inl conflicts ↦
            let went = closed-ok s s' (settle k.pays k.order_id k.user s) o' h in ground arith
        | inr denied ↦
            let went = closed-ok s s' (settle k.pays k.order_id k.user s) o' h in ground arith
      ]

  -- However requests to pay for orders and to cancel them overlap, at most one of those for an
  -- order is answered by its handler with the order, from consistent tables.
  pub settlements_overlap :
      (cache : Cache) (codec : Codec Order) (ttl : ℕ) (es : List Event)
      (w : World cache codec ttl (λ i. (calls i).http) handler) (i j : ℕ) (o o' : Order)
      → let w' = perform_all cache codec ttl (λ i. (calls i).http) handler es w in
        ((k : ℕ) → w.stages k ≡ waiting)
        → IsConsistent w.state
        → i ≢ j
        → (calls i).order_id ≡ (calls j).order_id
        → w'.stages i ≡ answered (ok (fresh o))
        → w'.stages j ≢ answered (ok (fresh o'))
  settlements_overlap cache codec ttl es w i j o o' start good apart same first second = apart (
      same_request cache codec ttl (λ i. (calls i).http) handler (λ i. (calls i).order_id)
        IsConsistent IsOver keeps takes stays refuses es w i j start good same
        (subst IsThrough (sym first) tt) (subst IsThrough (sym second) tt))

-- ===== src/System/Typed.antt =====
-- The statuses of the orders against the type that the migrations give the column.
use fair_drop.Common.{
  ℕ, ◌≡◌, ◌⊎◌, refl, sym, inl, inr, ap, ◌∙◌, Bool, true, false, ◌||◌, String, some, List, [], ◌∷◌,
  ◌==◌, Bool-cases, str_eq,
}
use fair_drop.Common.Table.{Table, get}
use fair_drop.Common.Table.Laws.{get-put, get-append}
use fair_drop.Models.{Order, OrderStatus, order_status_name}
use fair_drop.Database.{Session}
use fair_drop.Migrations.{type_values}
use fair_drop.Migrations.Versions.{versions, upgrades}
use fair_drop.Lifecycle.{IsConsistent}
use fair_drop.Orders.Changes.{Change, added, settled, Changes, none_yet, more, IsSettlement}
use fair_drop.System.{Reach}
use fair_drop.System.Orders.{Reach-Changes}

abbrev pub is_value : String → List String → Bool
is_value v [] = false
is_value v (w ∷ ws) = str_eq v w || is_value v ws

-- The column holds the status.
unfoldable pub is_order_status : OrderStatus → Bool
unfolding type_values
is_order_status status =
    is_value (order_status_name status) (type_values "orderstatus" (upgrades versions))

-- Every order can be stored.
abbrev pub IsTyped : Table Order → Type 0
IsTyped t = (id : ℕ) (o : Order) → get id t ≡ some o → is_order_status o.status ≡ true

pending_typed : is_order_status OrderStatus.pending ≡ true
unfolding is_order_status
pending_typed = refl

settlement_typed : (o o' : Order) → IsSettlement o o' → is_order_status o'.status ≡ true
unfolding is_order_status
settlement_typed o o' (inl paid) = ap (λ x. is_order_status x.status) paid
settlement_typed o o' (inr cancelled) = ap (λ x. is_order_status x.status) cancelled

Change-IsTyped : (t u : Table Order) → Change t u → IsTyped t → IsTyped u
Change-IsTyped t u (added j p fresh waiting after) typed id o found =
    let now = ap (get id) after ∙ get-append id j p t fresh in
    elim (Bool-cases (j == id)) [
      | inl same ↦
          let row : some p ≡ some o = sym (now ∙ rw same) ∙ found in
          let own : p ≡ o = cc in
          ap (λ x. is_order_status x.status) (sym own) ∙ ap is_order_status waiting ∙ pending_typed
      | inr other ↦ typed id o (sym (now ∙ rw other) ∙ found)
    ]
Change-IsTyped t u (settled j p p' there waiting settlement after) typed id o found =
    let now = ap (get id) after ∙ get-put id j p' p t there in
    elim (Bool-cases (j == id)) [
      | inl same ↦
          let row : some p' ≡ some o = sym (now ∙ rw same) ∙ found in
          let own : p' ≡ o = cc in
          ap (λ x. is_order_status x.status) (sym own) ∙ settlement_typed p p' settlement
      | inr other ↦ typed id o (sym (now ∙ rw other) ∙ found)
    ]

Changes-IsTyped : (t u : Table Order) → Changes t u → IsTyped t → IsTyped u
Changes-IsTyped t u none_yet typed = typed
Changes-IsTyped t u (more {u = v} before last) typed =
    Change-IsTyped v u last (Changes-IsTyped t v before typed)

-- In any history from consistent tables whose orders have statuses of the type `orderstatus`, as the
-- migrations give it, every order has such a status: what the code writes can be stored, although
-- the type lacks two of the statuses of the model.
pub Reach-IsTyped :
    {s t : Session} (id : ℕ) (o : Order)
    → IsConsistent s
    → IsTyped s.orders
    → Reach s t
    → get id t.orders ≡ some o
    → is_order_status o.status ≡ true
Reach-IsTyped {s} {t} id o c typed r found =
    Changes-IsTyped s.orders t.orders (Reach-Changes c r) typed id o found

-- The type lacks two of the statuses of the model, and no others.
pub is_order_status-missing :
    (status : OrderStatus)
    → is_order_status status ≡ false
    → (status ≡ OrderStatus.completed) ⊎ (status ≡ OrderStatus.expired)
unfolding is_order_status
is_order_status-missing OrderStatus.completed h = inl refl
is_order_status-missing OrderStatus.expired h = inr refl
is_order_status-missing _ h = cc

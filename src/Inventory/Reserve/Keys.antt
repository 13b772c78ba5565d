-- ===== src/Inventory/Reserve/Keys.antt =====
-- An idempotency key reserves stock once.
use fair_drop.Common.{
  ℕ, ◌≤◌, ◌≡◌, ◌≢◌, refl, Bool, true, false, String, some, [], ◌∷◌, arith, str_eq, str_eq_refl,
}
use fair_drop.Common.Table.{Table, get, select}
use fair_drop.Common.Table.Laws.{get-append}
use fair_drop.Common.Table.Select.{empty_select}
use fair_drop.Exceptions.{ok, err, conflict}
use fair_drop.Models.{Product, Reservation}
use fair_drop.Database.{Session, check_product, update_product_row, insert_reservation, is_empty}
use fair_drop.Config.{Settings}
use fair_drop.Inventory.Schemas.{ReservationCreate}
use fair_drop.Inventory.Reserve.{reserve_items}
use fair_drop.Inventory.Reserve.Outcome.{reserve_items-ok}

abbrev pub same_key : String → Reservation → Bool
same_key key q = str_eq q.idempotency_key key

-- The unique key is in use.
key_in_use :
    (key : String) (t : Table Reservation) (j : ℕ) (q : Reservation)
    → get j t ≡ some q
    → q.idempotency_key ≡ key
    → is_empty (select (same_key key) t) ≡ false
key_in_use key t j q found same = go (select (same_key key) t) refl
  where
    go : (rows : Table Reservation) → select (same_key key) t ≡ rows → is_empty rows ≡ false
    go (row ∷ rows) e = refl
    go [] e =
        let hit : same_key key q ≡ true = rw (← same) (str_eq_refl q.idempotency_key) in
        cc (empty_select (same_key key) t j q e found)

module _ (settings : Settings) (now id user_id : ℕ) (key : String) (d : ReservationCreate)
    (s : Session) (j : ℕ) (q : Reservation) (found : get j s.reservations ≡ some q)
    (same : q.idempotency_key ≡ key) where
  pub reserve_items-not_ok :
      (r : Reservation) (s' : Session) → reserve_items settings now id user_id key d s ≢ ok (r, s')
  unfolding reserve_items update_product_row check_product insert_reservation
  reserve_items-not_ok r s' h = ground (arith, key_in_use key s.reservations j q found same)

  -- Where some reservation has the key already and the stock suffices, the request is answered by a
  -- conflict.
  pub reserve_items-duplicate :
      (p : Product)
      → get d.product_id s.products ≡ some p
      → d.quantity ≤ p.qty_available
      → check_product p ≡ ok tt
      → reserve_items settings now id user_id key d s ≡ err conflict
  unfolding reserve_items update_product_row check_product insert_reservation
  reserve_items-duplicate p known fits storable =
      ground (arith, key_in_use key s.reservations j q found same)

-- After a reservation has gone through, no request with its idempotency key goes through, whatever
-- its other data and whoever sends it.
pub reserve_items-key_once :
    (settings : Settings) (now id user_id : ℕ) (key : String) (d : ReservationCreate)
    (s s' : Session) (r : Reservation) (later id' user' : ℕ) (d' : ReservationCreate)
    (r' : Reservation) (s″ : Session)
    → reserve_items settings now id user_id key d s ≡ ok (r, s')
    → reserve_items settings later id' user' key d' s' ≢ ok (r', s″)
reserve_items-key_once settings now id user_id key d s s' r later id' user' d' r' s″ h =
    let (p, known, fits, new, made, after) =
      reserve_items-ok settings now id user_id key d s r s' h in
    reserve_items-not_ok settings later id' user' key d' s' id r
      (rw after (rw (get-append id id r s.reservations new) (ground arith))) (rw made refl) r' s″

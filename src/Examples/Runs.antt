-- ===== src/Examples/Runs.antt =====
-- Runs on the sample shop.
use fair_drop.Common.{◌≡◌, refl, none, [], ◌∷◌}
use fair_drop.Common.Table.{get, put, select}
use fair_drop.Common.Table.Groups.{sort_desc}
use fair_drop.Exceptions.{ok, err, integrity_error, not_found, credentials_error}
use fair_drop.Models.{OrderStatus, ImageStatus}
use fair_drop.Database.{insert_product, check_product, update_product_row}
use fair_drop.Inventory.Service.{seller_limit, check_seller_limit, get_product, get_product_row}
use fair_drop.Inventory.Internal.{
  mark_reservation_as_completed, cancel_reservation_and_return_stock, close_reservation,
  return_stock, ensure_product_exists,
}
use fair_drop.Users.Verification.{get_verification_requests, get_latest_verification_request}
use fair_drop.Users.ApiKeys.{delete_api_key_b2b_partner, get_b2b_partner_by_api_key}
use fair_drop.Users.Hashing.{Hashing}
use fair_drop.Media.{generate_upload_url}
use fair_drop.Examples.Sample.{settings, shop, vendor, lamp, plain_reservation}

a_lamp : get_product 10 shop ≡ ok lamp
unfolding get_product get_product_row get
a_lamp = refl

key_taken : insert_product 10 lamp shop ≡ err integrity_error
unfolding insert_product check_product get
key_taken = refl

completed :
    mark_reservation_as_completed 20 shop
    ≡ ok (record shop {
      reservations =
          put 20 (record plain_reservation { status = OrderStatus.completed }) shop.reservations;
    })
unfolding mark_reservation_as_completed get
completed = refl

given_back :
    cancel_reservation_and_return_stock 20 shop
    ≡ ok (record shop {
      products = put 10 (record lamp { qty_available = 7 }) shop.products;
      reservations =
          put 20 (record plain_reservation { status = OrderStatus.cancelled }) shop.reservations;
    })
unfolding cancel_reservation_and_return_stock close_reservation return_stock update_product_row
    check_product get
given_back = refl

no_requests : get_latest_verification_request 1 shop ≡ none
unfolding get_latest_verification_request get_verification_requests select sort_desc
no_requests = refl

no_key : delete_api_key_b2b_partner 2 60 shop ≡ err not_found
unfolding delete_api_key_b2b_partner get
no_key = refl

uploaded :
    generate_upload_url 80 10 "products/10/80-lamp.jpg" shop
    ≡ ok (
      80,
      record shop {
        images =
            (
              80,
              record {
                product_id = 10;
                file_path = "products/10/80-lamp.jpg";
                status = ImageStatus.pending;
              },
            )
            ∷ [];
      },
    )
unfolding generate_upload_url ensure_product_exists get
uploaded = refl

may_sell : check_seller_limit settings vendor shop ≡ ok tt
unfolding check_seller_limit seller_limit select
may_sell = refl

keyless : (h : Hashing) → get_b2b_partner_by_api_key h 20 none shop ≡ (err credentials_error, shop)
unfolding get_b2b_partner_by_api_key
keyless h = refl

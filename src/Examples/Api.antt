-- ===== src/Examples/Api.antt =====
-- Runs of routes on the sample shop.
use fair_drop.Common.{◌≡◌, refl, false, String, Option, none, some, [], ◌∷◌, strip_prefix}
use fair_drop.Common.Table.{get, select}
use fair_drop.Common.Table.Groups.{sort_desc}
use fair_drop.Exceptions.{
  Result, ok, err, no_such_resource, permission_denied, user_already_exists, credentials_error,
  not_found, forbidden,
}
use fair_drop.Json.{str}
use fair_drop.Models.{user, active, Order}
use fair_drop.Database.{Session}
use fair_drop.Security.{call, check_ownership, check_permission, role_in, role_eq}
use fair_drop.Users.Accounts.{create_user}
use fair_drop.Users.Tokens.{refresh_token, refresh_access_token}
use fair_drop.Users.Verification.{get_verification_requests, get_latest_verification_request}
use fair_drop.Users.Access.{get_current_user, get_current_user_flexible, get_api_key_user, register}
use fair_drop.RateLimit.{limit_signup_attempts, check_rate_limit, rate_limit_script}
use fair_drop.Inventory.Service.{get_product, get_product_row}
use fair_drop.Inventory.Admin.{change_status}
use fair_drop.Orders.Service.{get_order_for_details, get_order}
use fair_drop.Media.Paths.{public_url, replace_from, doc_value, view_private_file}
use fair_drop.Admin.{is_visible}
use fair_drop.Admin.Formatters.{
  markup, plain, color_of, status_formatter, user_link_formatter, product_link_formatter,
  order_link_formatter,
}
use fair_drop.Routes.{add_request_context, checked_user}
use fair_drop.Routes.Inventory.{get_product_route}
use fair_drop.Routes.Orders.{
  get_order_details_endpoint, create_order_endpoint, cancel_order_endpoint, idempotent_endpoint,
}
use fair_drop.Routes.Users.{
  UserRead, to_seller, create_user_route, register_address, refresh_token_route, read_user_me,
  create_upgrade_request, get_upgrade_requests, get_latest_upgrade_request, request_reads,
}
use fair_drop.Routes.Dashboards.{
  fetch_seller_stats, fetch_my_products, fetch_buyer_stats, fetch_buyer_orders,
}
use fair_drop.Routes.Uploads.{view_private_file_route}
use fair_drop.Routes.Partners.{external_product, external_products, fetch_catalog}
use fair_drop.Examples.Sample.{settings, shop, reviewer, lamp, placed_order}
use fair_drop.Examples.Access.{plain_text, plain_tokens}
use fair_drop.Examples.Requests.{plain_cache, empty_cache, constant_codec, pay}
use fair_drop.Examples.Files.{show, presign}
use fair_drop.Examples.Limits.{plain_counters, no_counters}

bound : (add_request_context "r2" none shop).context.remote_ip ≡ some "unknown"
unfolding add_request_context
bound = refl

hidden : is_visible (some reviewer) ≡ false
unfolding is_visible
hidden = refl

badge : status_formatter "status" "PAID" ≡ markup "<span class=\"badge bg-success\">PAID</span>"
unfolding status_formatter color_of
badge = refl

no_user : user_link_formatter none ≡ plain "N/A"
unfolding user_link_formatter
no_user = refl

product_link :
    product_link_formatter (some "7") ≡ markup "<a href=\"/admin/product/details/7\">7</a>"
unfolding product_link_formatter
product_link = refl

order_link : order_link_formatter (some "7") ≡ markup "<a href=\"/admin/order/details/7\">7</a>"
unfolding order_link_formatter
order_link = refl

no_product : get_product_route (λ b k n. k) settings 99 shop ≡ err not_found
unfolding get_product_route get_product get_product_row get
no_product = refl

taken :
    (create_user_route plain_counters plain_text settings
      (λ text. some text)
      5
      9
      1
      none
      "buyer@example.com"
      "pw"
      no_counters
      shop).0
    ≡ err user_already_exists
unfolding create_user_route register_address limit_signup_attempts check_rate_limit
    rate_limit_script register create_user select
taken = refl

unknown_token :
    refresh_token_route plain_tokens settings 5 70 "t70" "t69" shop ≡ err credentials_error
unfolding refresh_token_route refresh_token refresh_access_token select
unknown_token = refl

myself :
    read_user_me plain_tokens settings 5 "sbuyer@example.com" shop
    ≡ ok (record { id = 1; email = "buyer@example.com"; role = user })
unfolding read_user_me get_current_user select
myself = refl

no_requests : get_upgrade_requests plain_tokens settings 5 "sbuyer@example.com" shop ≡ ok []
unfolding get_upgrade_requests get_current_user select get_verification_requests sort_desc
    request_reads
no_requests = refl

no_latest :
    get_latest_upgrade_request plain_tokens settings 5 "sbuyer@example.com" shop
    ≡ err no_such_resource
unfolding get_latest_upgrade_request get_latest_verification_request get_current_user select
    get_verification_requests sort_desc
no_latest = refl

stranger :
    create_upgrade_request plain_tokens settings 5 "snobody" 90
      (record { target_role = to_seller; docs_url = none })
      shop
    ≡ err credentials_error
unfolding create_upgrade_request get_current_user select
stranger = refl

no_seller :
    fetch_seller_stats plain_tokens settings 5 "sbuyer@example.com" shop ≡ err permission_denied
unfolding fetch_seller_stats checked_user get_current_user call check_permission role_in role_eq
    select
no_seller = refl

no_products :
    fetch_my_products plain_tokens settings 5 "sbuyer@example.com" none shop ≡ err permission_denied
unfolding fetch_my_products checked_user get_current_user call check_permission role_in role_eq
    select
no_products = refl

no_buyer :
    fetch_buyer_stats plain_tokens settings 5 "svendor@example.com" shop ≡ err permission_denied
unfolding fetch_buyer_stats checked_user get_current_user call check_permission role_in role_eq
    select
no_buyer = refl

no_orders :
    fetch_buyer_orders plain_tokens settings 5 "svendor@example.com" none shop
    ≡ err permission_denied
unfolding fetch_buyer_orders checked_user get_current_user call check_permission role_in role_eq
    select
no_orders = refl

my_order :
    get_order_details_endpoint plain_tokens settings 5 "sbuyer@example.com" 30 shop
    ≡ ok (placed_order, shop)
unfolding get_order_details_endpoint get_order_for_details get_order get_current_user get select
    check_ownership
my_order = refl

public :
    public_url settings "http://minio:9000/fairdrop-media/a.jpg"
    ≡ "http://localhost:9000/fairdrop-media/a.jpg"
unfolding public_url replace_from strip_prefix
public = refl

passport : doc_value "passport" (("passport", str "p.pdf") ∷ []) ≡ some (str "p.pdf")
unfolding doc_value
passport = refl

listed : external_products ((10, lamp) ∷ []) ≡ external_product 10 lamp ∷ []
unfolding external_products
listed = refl

not_cancelled :
    (cancel_order_endpoint plain_cache
      (constant_codec Order)
      plain_tokens
      settings
      30
      5
      "snobody"
      pay
      empty_cache
      shop).0
    ≡ err credentials_error
unfolding cancel_order_endpoint idempotent_endpoint get_current_user select
not_cancelled = refl

not_ordered :
    (create_order_endpoint plain_cache
      (constant_codec Order)
      plain_tokens
      settings
      31
      41
      (record { reservation_id = 20; shipping_address = none })
      5
      "snobody"
      pay
      empty_cache
      shop).0
    ≡ err credentials_error
unfolding create_order_endpoint idempotent_endpoint get_current_user select
not_ordered = refl

not_shown :
    view_private_file_route plain_tokens show presign settings 5
      (some "sbuyer@example.com")
      none
      "product_image"
      50
      none
      shop
    ≡ err forbidden
unfolding view_private_file_route get_current_user_flexible get_current_user select
    view_private_file
not_shown = refl

keyless : (fetch_catalog plain_text 5 none (λ rows. rows) shop).0 ≡ err permission_denied
unfolding fetch_catalog get_api_key_user
keyless = refl

nothing_to_change : change_status 99 active reviewer shop ≡ err not_found
unfolding change_status get_product_row get
nothing_to_change = refl

abbrev newcomer_view : UserRead
newcomer_view = record { id = 9; email = "new@example.com"; role = user }

-- The domain in the normal form.
abbrev to_lower_domain : String → Option String
to_lower_domain text = some "new@example.com"

abbrev registration : Result UserRead × plain_counters.Store × Session
registration =
    create_user_route plain_counters plain_text settings to_lower_domain 5 9 1 none
      "new@EXAMPLE.com" "pw" no_counters shop

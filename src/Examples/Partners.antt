-- ===== src/Examples/Partners.antt =====
-- A partner of the sample shop.
use fair_drop.Common.{◌≡◌, ◌≢◌, refl, true, String, Option, none, some, [], ◌∷◌, arith}
use fair_drop.Common.Table.{get, select, IsKeyed}
use fair_drop.Exceptions.{Result, ok, err}
use fair_drop.Models.{user_b2b, ApiKey, Order}
use fair_drop.Database.{Session}
use fair_drop.Security.{call, check_permission, role_in, role_eq}
use fair_drop.Users.Access.{get_current_user, get_api_key_user}
use fair_drop.Users.ApiKeys.{
  create_api_key_b2b_partner, authenticate_api_key_b2b_partner, first_verified,
}
use fair_drop.Routes.{checked_user}
use fair_drop.Routes.Users.{
  ApiKeyWithSecret, create_api_key_route, get_api_keys_b2b_partners, api_key_reads,
}
use fair_drop.Examples.Sample.{settings, shop, buyer, vendor}
use fair_drop.Examples.Access.{plain_text, plain_tokens}

abbrev partner_key : ApiKey
partner_key = record {
  user_id = 2;
  name = "vendor";
  key_prefix = "fd_live_abcd";
  hashed_key = "fd_live_abcdefgh";
  is_active = true;
  expires_at = none;
  last_used_at = none;
}

abbrev shop_with_key : Session
shop_with_key = record shop { api_keys = (70, partner_key) ∷ [] }

abbrev key : Option String
key = some "fd_live_abcdefgh"

vendor_known : (get_api_key_user plain_text 9 key shop_with_key).0 ≡ ok vendor
unfolding get_api_key_user authenticate_api_key_b2b_partner first_verified get select
vendor_known = refl

orders-IsKeyed : IsKeyed shop.orders
unfolding get
orders-IsKeyed = (refl, tt)

not_the_vendors : (o : Order) → get 30 shop.orders ≡ some o → o.user_id ≢ vendor.id
unfolding get
not_the_vendors o found = λ e. ground arith

abbrev b2b_shop : Session
b2b_shop = record shop { users = (1, record buyer { role = user_b2b }) ∷ (2, vendor) ∷ [] }

abbrev creation : Result (ApiKeyWithSecret × Session)
creation =
    create_api_key_route plain_tokens settings 9 "sbuyer@example.com" plain_text 71 5
      "fd_live_ijklmnop" "mine" b2b_shop

abbrev made_key : ApiKeyWithSecret
made_key = record {
  data_read = record {
    id = 71;
    name = "mine";
    key_prefix = "fd_live_ijkl";
    is_active = true;
    expires_at = none;
    last_used_at = none;
  };
  raw_key = "fd_live_ijklmnop";
}

abbrev after : Result (ApiKeyWithSecret × Session) → Session
after (ok (made, s)) = s
after (err e) = b2b_shop

key_created : creation ≡ ok (made_key, after creation)
unfolding create_api_key_route checked_user get_current_user call check_permission role_in role_eq
    create_api_key_b2b_partner get select
key_created = refl

none_listed :
    get_api_keys_b2b_partners plain_tokens settings 9 "sbuyer@example.com" b2b_shop ≡ ok []
unfolding get_api_keys_b2b_partners checked_user get_current_user call check_permission role_in
    role_eq get select api_key_reads
none_listed = refl

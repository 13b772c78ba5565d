-- ===== src/Examples/Registration.antt =====
-- Accounts, tokens, keys and requests for a role at concrete inputs.
use fair_drop.Common.{
  inl, ℕ, ◌≡◌, ◌≢◌, refl, true, false, none, some, [], ◌∷◌, arith, str_eq, str_eq_refl, take_chars,
}
use fair_drop.Common.Table.{get, put, select, delete}
use fair_drop.Exceptions.{Result, ok, err, credentials_error}
use fair_drop.Models.{User, seller, is_staff, ApiKey, VerificationRequest, VerificationStatus}
use fair_drop.Database.{Session}
use fair_drop.Users.Hashing.{Hashing}
use fair_drop.Users.Accounts.{create_user, insert_user, new_user}
use fair_drop.Users.Tokens.{refresh_access_token, new_refresh_token}
use fair_drop.Users.Tokens.Rotation.{HasUniqueTokens, refresh_access_token_once}
use fair_drop.Users.ApiKeys.{
  key_length_prefix, new_api_key, create_api_key_b2b_partner, first_verified,
  authenticate_api_key_b2b_partner,
}
use fair_drop.Users.ApiKeys.Keys.{authenticate_api_key_sound}
use fair_drop.Users.Verification.{create_verification_request, new_request, on_model_change}
use fair_drop.Users.Verification.Roles.{
  HasOneOpen, create_verification_request-HasOneOpen, on_model_change-no_staff,
}
use fair_drop.Examples.Sample.{settings, shop, buyer}

-- A hash that is the text.
abbrev plain_text : Hashing
plain_text = record {
  hash = λ salt text. text;
  verify = str_eq;
  verify-hash = λ salt text. str_eq_refl text;
}

abbrev session_of : {A : Type 0} → Result (A × Session) → Session
session_of (ok (a, s)) = s
session_of (err e) = shop

abbrev newcomer : User
newcomer = new_user plain_text 4 7 "new@example.com" "secret"

abbrev joined_shop : Session
joined_shop = session_of (create_user plain_text 4 7 "new@example.com" "secret" shop)

newcomer_joined :
    create_user plain_text 4 7 "new@example.com" "secret" shop ≡ ok (newcomer, joined_shop)
unfolding create_user insert_user get select
newcomer_joined = refl

abbrev shop_with_token : Session
shop_with_token = record shop { refresh_tokens = (50, new_refresh_token settings 10 "t50" 1) ∷ [] }

shop_with_token-HasUniqueTokens : HasUniqueTokens shop_with_token.refresh_tokens
unfolding get
shop_with_token-HasUniqueTokens = record {
  keyed = ground arith;
  unique = λ i a j b e f same. ground arith;
}

token_used : refresh_access_token 20 "t50" shop_with_token ≡ ok (buyer, shop)
unfolding refresh_access_token select get delete
token_used = refl

refresh_access_token_once_example : refresh_access_token 21 "t50" shop ≡ err credentials_error
refresh_access_token_once_example =
    refresh_access_token_once 20 21 "t50" buyer shop_with_token shop shop
      shop_with_token-HasUniqueTokens token_used tt (λ j b found. inl found)

abbrev partner_key : ApiKey
partner_key = new_api_key plain_text 9 "0123456789abcdef" 2 "warehouse"

abbrev shop_with_key : Session
shop_with_key = record shop { api_keys = (60, partner_key) ∷ [] }

key_issued :
    create_api_key_b2b_partner plain_text 60 9 "0123456789abcdef" 2 "warehouse" shop
    ≡ ok (partner_key, "0123456789abcdef", shop_with_key)
unfolding create_api_key_b2b_partner get
key_issued = refl

abbrev used_key : ApiKey
used_key = record partner_key { last_used_at = some 30 }

abbrev shop_with_used_key : Session
shop_with_used_key = record shop { api_keys = (60, used_key) ∷ [] }

key_used :
    authenticate_api_key_b2b_partner plain_text 30 "0123456789abcdef" shop_with_key
    ≡ (some used_key, shop_with_used_key)
unfolding authenticate_api_key_b2b_partner first_verified select put
key_used = refl

authenticate_api_key_sound_example :
    (i : ℕ) × (k : ApiKey) × (get i shop_with_key.api_keys ≡ some k)
    × (k.is_active ≡ true)
    × (k.key_prefix ≡ take_chars key_length_prefix "0123456789abcdef")
    × (str_eq "0123456789abcdef" k.hashed_key ≡ true)
    × (used_key ≡ record k { last_used_at = some 30 })
    × (shop_with_used_key
        ≡ record shop_with_key { api_keys = put i used_key shop_with_key.api_keys })
unfolding get
authenticate_api_key_sound_example =
    authenticate_api_key_sound plain_text 30 "0123456789abcdef" shop_with_key shop_with_used_key
      used_key (refl, tt) key_used

shop-HasOneOpen : HasOneOpen shop.verification_requests
unfolding get
shop-HasOneOpen = record { one = λ i v j w u e f p q. cc; no_staff = λ i v e. cc }

abbrev to_seller : VerificationRequest
to_seller = new_request 40 1 seller none

abbrev shop_with_request : Session
shop_with_request = record shop { verification_requests = (70, to_seller) ∷ [] }

seller_requested :
    create_verification_request 40 70 1 seller none shop ≡ ok (to_seller, shop_with_request)
unfolding create_verification_request select get
seller_requested = refl

create_verification_request-HasOneOpen_example : HasOneOpen shop_with_request.verification_requests
create_verification_request-HasOneOpen_example =
    create_verification_request-HasOneOpen 40 70 1 seller none shop shop_with_request to_seller
      shop-HasOneOpen seller_requested

shop_with_request-HasOneOpen : HasOneOpen shop_with_request.verification_requests
unfolding get
shop_with_request-HasOneOpen = record {
  one = λ i v j w u e f p q. ground arith;
  no_staff = λ i v e. ground arith;
}

abbrev promoted_buyer : User
promoted_buyer = record buyer { role = seller; is_verified = true }

abbrev shop_with_seller : Session
shop_with_seller = record shop_with_request { users = put 1 promoted_buyer shop.users }

seller_approved :
    on_model_change (some VerificationStatus.approved) to_seller false shop_with_request
    ≡ ok shop_with_seller
unfolding on_model_change get
seller_approved = refl

on_model_change-no_staff_example :
    (u : User) × (get 1 shop_with_request.users ≡ some u)
    × (is_staff promoted_buyer.role ≡ true → promoted_buyer ≡ u)
    × (1 ≢ to_seller.user_id → promoted_buyer ≡ u)
unfolding get put
on_model_change-no_staff_example =
    on_model_change-no_staff (some VerificationStatus.approved) 70 to_seller false shop_with_request
      shop_with_seller 1 promoted_buyer shop_with_request-HasOneOpen refl seller_approved refl

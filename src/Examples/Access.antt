-- ===== src/Examples/Access.antt =====
-- A login of the sample shop's buyer, and a request with a token.
use fair_drop.Common.{◌≡◌, refl, true, String, Option, none, some, str_eq, str_eq_refl, [], ◌∷◌}
use Prim.Native.String.{String}
use fair_drop.Common.Table.{get, select}
use fair_drop.Exceptions.{ok}
use fair_drop.Database.{Session}
use fair_drop.Users.Hashing.{Hashing}
use fair_drop.Users.Accounts.{authenticate_user}
use fair_drop.Users.Tokens.{create_refresh_token, new_refresh_token}
use fair_drop.Users.Access.{Claims, Jwt, Token, create_access_token, login}
use fair_drop.Examples.Sample.{settings, shop}

abbrev pub plain_text : Hashing
plain_text = record {
  hash = λ salt text. text;
  verify = str_eq;
  verify-hash = λ salt text. str_eq_refl text;
}

-- Tokens that are the subject behind a mark, and never expire.
abbrev mark : Option String → String
mark none = ""
mark (some text) = String.◌∷◌ "s" text

abbrev unmark : String → Option Claims
unmark String.[] = some (record { sub = none; exp = 0 })
unmark (String.◌∷◌ c text) = some (record { sub = some text; exp = 0 })

abbrev pub plain_tokens : Jwt
plain_tokens = record {
  encode = λ c key algorithm. mark c.sub;
  decode = λ now text key algorithm. unmark text;
  decode-encode = λ now c key algorithm soon. read c.sub;
}
  where
    read : (sub : Option String) → (d : Claims) × (unmark (mark sub) ≡ some d) × (d.sub ≡ sub)
    read none = (record { sub = none; exp = 0 }, refl, refl)
    read (some text) = (record { sub = some text; exp = 0 }, refl, refl)

abbrev buyer_token : Token
buyer_token = record { access_token = mark (some "buyer@example.com"); refresh_token = "t51" }

abbrev shop_with_login : Session
shop_with_login = record shop { refresh_tokens = (51, new_refresh_token settings 10 "t51" 1) ∷ [] }

buyer_in :
    login plain_text plain_tokens settings true 10 51 "t51" "buyer@example.com" "hash of buyer" shop
    ≡ ok (buyer_token, shop_with_login)
unfolding login create_refresh_token authenticate_user create_access_token get select
buyer_in = refl

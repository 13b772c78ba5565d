-- ===== src/Routes/Users/Guesses.antt =====
-- How many passwords can be tried for one email.
use Prim.Native.String
use fair_drop.Common.{
  ℕ, suc, ◌+◌, ◌*◌, ◌≤◌, ◌<◌, ◌≡◌, refl, ap, ◌∙◌, inl, inr, Bool, true, false, not, ◌&&◌, String,
  none, List, [], ◌∷◌, map, arith, str_eq, str_eq_iff, sym, take_chars, chars, Bool-cases, All,
  if◌then◌else◌,
}
use fair_drop.Exceptions.{Result, err, rate_limit_exceeded}
use fair_drop.Config.{Settings, microseconds_per_second}
use fair_drop.Database.{Session}
use fair_drop.Users.Hashing.{Hashing}
use fair_drop.Users.Access.{Jwt, Token, login}
use fair_drop.RateLimit.{Counters, check_rate_limit, limit_login_attempts}
use fair_drop.RateLimit.Window.{Request, is_ok, count_passed, IsIn, count_passed-le}
use fair_drop.Routes.{closed}
use fair_drop.Routes.Users.{login_route}

-- A login that is tried, with what the code draws for its refresh token.
pub record Attempt : Type 0 where
  pub at : ℕ
  pub id : ℕ
  pub token : String
  pub email : String
  pub password : String

abbrev pub login_key : String → String
login_key email = String.◌++◌ "rate_limit:login:" email

-- What a text starts with.
take_chars-append : (p x : String) → take_chars (chars p) (String.◌++◌ p x) ≡ p
take_chars-append String.[] x = refl
take_chars-append (String.◌∷◌ c p) x =
    rw (String.append.cons c p x) (ap (String.◌∷◌ c) (take_chars-append p x))

key_apart :
    (a b : String) → str_eq (String.◌++◌ "rate_limit:dummy:" (login_key a)) (login_key b) ≡ false
key_apart a b =
    let dummy = String.◌++◌ "rate_limit:dummy:" (login_key a) in
    elim (Bool-cases (str_eq dummy (login_key b))) [
      | inr other ↦ other
      | inl same ↦
          let e = ap (take_chars 17) ((str_eq_iff dummy (login_key b)).0 same) in
          let starts : "rate_limit:dummy:" ≡ "rate_limit:login:" =
            sym (take_chars-append "rate_limit:dummy:" (login_key a))
            ∙ e
            ∙ take_chars-append "rate_limit:login:" b in
          absurd (differ (ap (λ x. str_eq x "rate_limit:login:") starts))
    ]
  where
    differ : false ≡ true → ⊥
    differ h = cc

key_same : (a b : String) → str_eq a b ≡ true → str_eq (login_key a) (login_key b) ≡ true
key_same a b h = (str_eq_iff (login_key a) (login_key b)).1 (ap login_key ((str_eq_iff a b).0 h))

tried_step :
    (x y : ℕ) (mine keyed within limited : Bool)
    → x ≤ y
    → (mine ≡ true → keyed ≡ true)
    → (within ≡ false → limited ≡ true)
    → (if mine && not limited then suc x else x) ≤ (if keyed && within then suc y else y)
tried_step x y mine keyed within limited le key refused = ground arith

-- The limiter has refused.
abbrev pub is_limited : Result Token → Bool
is_limited (err rate_limit_exceeded) = true
is_limited _ = false

abbrev request_of : Settings → Attempt → Request
request_of settings a = record {
  at = a.at;
  buckets = record {
    user_key = login_key a.email;
    user_limit = settings.login_rate_limit_attempts;
    item = none;
  };
  ttl = settings.login_rate_limit_ttl;
}

module _ (redis : Counters) (h : Hashing) (settings : Settings) (jwt : Jwt) (email : String) where
  -- Of the logins, taken one after another, how many try a password for `email`.
  pub count_tried : List Attempt → redis.Store → Session → ℕ
  count_tried [] counters s = 0
  count_tried (a ∷ attempts) counters s =
      let (answer, counters', s') =
        login_route redis h settings jwt a.at a.id a.token a.email a.password counters s in
      let rest = count_tried attempts counters' s' in
      if str_eq a.email email && not (is_limited answer) then suc rest else rest

  refused_by_limiter :
      (a : Attempt) (s : Session)
      → is_limited (closed s (login h jwt settings false a.at a.id a.token a.email a.password s)).0
        ≡ true
  unfolding login
  refused_by_limiter a s = refl

  count_tried-le_passed :
      (attempts : List Attempt) (counters : redis.Store) (s : Session)
      → count_tried attempts counters s
        ≤ count_passed redis (login_key email) (map (request_of settings) attempts) counters
  unfolding count_tried count_passed login_route limit_login_attempts
  count_tried-le_passed [] counters s = omega arith
  count_tried-le_passed (a ∷ attempts) counters s =
      let r = request_of settings a in
      let (answer, counters') = check_rate_limit redis r.at r.buckets r.ttl counters in
      let s' =
        (closed s (login h jwt settings (is_ok answer) a.at a.id a.token a.email a.password s)).1 in
      let rest = count_tried-le_passed attempts counters' s' in
      tried_step _ _ (str_eq a.email email) (str_eq (login_key a.email) (login_key email))
        (is_ok answer)
        (is_limited
          (closed s (login h jwt settings (is_ok answer) a.at a.id a.token a.email a.password s)).0)
        rest (key_same a.email email) (λ missed. rw missed (refused_by_limiter a s))

  -- A window in which the logins are tried.
  abbrev pub IsWithin : ℕ → ℕ → Attempt → Type 0
  IsWithin start stop a = (start ≤ a.at) × (a.at < stop)

  within_IsIn :
      (start stop : ℕ) (attempts : List Attempt)
      → stop ≤ start + settings.login_rate_limit_ttl * microseconds_per_second
      → All (IsWithin start stop) attempts
      → All
          (IsIn redis (login_key email) start stop settings.login_rate_limit_attempts)
          (map (request_of settings) attempts)
  within_IsIn start stop [] long w = tt
  within_IsIn start stop (a ∷ attempts) long w = (
    record {
      from = w.0.0;
      until = w.0.1;
      other_item = key_apart a.email email;
      mine = λ same. (refl, long);
    },
    within_IsIn start stop attempts long w.1,
  )

-- Within a window no longer than the limit's time to live, before which the counter of an email is
-- not live, at most `login_rate_limit_attempts` passwords are tried for that email, among any
-- logins for any emails: the others are refused by the limiter.
pub count_tried-le :
    (redis : Counters) (h : Hashing) (settings : Settings) (jwt : Jwt) (email : String)
    (start stop : ℕ) (attempts : List Attempt) (counters : redis.Store) (s : Session)
    → ((now : ℕ) → start ≤ now → redis.get now (login_key email) counters ≡ none)
    → stop ≤ start + settings.login_rate_limit_ttl * microseconds_per_second
    → All (IsWithin redis h settings jwt email start stop) attempts
    → count_tried redis h settings jwt email attempts counters s
      ≤ settings.login_rate_limit_attempts
count_tried-le redis h settings jwt email start stop attempts counters s idle long w = omega (
  arith,
  count_tried-le_passed redis h settings jwt email attempts counters s,
  count_passed-le redis (login_key email) start stop settings.login_rate_limit_attempts
      (map (request_of settings) attempts) counters idle
      (within_IsIn redis h settings jwt email start stop attempts long w),
)

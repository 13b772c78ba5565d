-- ===== src/Examples/Limits.antt =====
-- Counters as a function of their keys, and what the rate limits do with them.
use fair_drop.Common.{
  ◌≤◌, ◌≢◌, refl, ap, String, Option, none, some, List, [], ◌∷◌, arith, str_eq, if◌then◌else◌,
}
use fair_drop.RateLimit.{
  Counter, Counters, Buckets, value_at, increased, due, item_of, check_rate_limit,
}
use fair_drop.RateLimit.Deadlines.{HasDeadlines, check_rate_limit-HasDeadlines}
use fair_drop.Routes.Users.Guesses.{Attempt, count_tried, count_tried-le}
use fair_drop.Examples.Sample.{settings, shop}
use fair_drop.Examples.Access.{plain_text, plain_tokens}

abbrev pub plain_counters : Counters
plain_counters = record {
  Store = String → Option Counter;
  get = λ now k s. value_at now (s k);
  incr = λ now k s j. if str_eq k j then some (increased now (s k)) else s j;
  expire = λ now k seconds s j. if str_eq k j then due now seconds (s k) else s j;
  entry = λ k s. s k;
  get_lem = λ now k s. refl;
  entry-incr = λ j now k s. refl;
  entry-expire = λ j now k seconds s. refl;
}

abbrev pub no_counters : plain_counters.Store
no_counters = λ k. none

abbrev buckets : Buckets
buckets = record { user_key = "a"; user_limit = 2; item = none }

different_keys : buckets.user_key ≢ (item_of buckets).0
different_keys = λ e. let f = ap (λ x. str_eq x "a") e in cc f

none_yet : HasDeadlines plain_counters no_counters
none_yet = λ k c h. cc

check_rate_limit-HasDeadlines_example :
    HasDeadlines plain_counters (check_rate_limit plain_counters 7 buckets 1 no_counters).1
check_rate_limit-HasDeadlines_example =
    check_rate_limit-HasDeadlines plain_counters 7 buckets 1 no_counters different_keys none_yet

abbrev guesses : List Attempt
guesses =
    record { at = 5; id = 60; token = "t60"; email = "buyer@example.com"; password = "guess" }
    ∷ record {
      at = 6;
      id = 61;
      token = "t61";
      email = "buyer@example.com";
      password = "hash of buyer";
    }
    ∷ []

count_tried-le_example :
    count_tried plain_counters plain_text settings plain_tokens "buyer@example.com" guesses
      no_counters shop
    ≤ 5
count_tried-le_example =
    count_tried-le plain_counters plain_text settings plain_tokens "buyer@example.com" 5 60000000
      guesses no_counters shop (λ now from. refl) (omega arith)
      ((omega arith, omega arith), ((omega arith, omega arith), tt))

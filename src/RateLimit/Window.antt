-- ===== src/RateLimit/Window.antt =====
-- How many requests with one key pass within a window.
use fair_drop.Common.{
  ℕ, suc, ◌+◌, ◌*◌, ◌≤◌, ◌<◌, ◌≡◌, ◌≢◌, ◌⊎◌, refl, sym, ◌∙◌, inl, inr, Bool, true, false, String,
  Option, none, some, List, [], ◌∷◌, arith, leb, ◌==◌, str_eq, str_eq_iff, Bool-cases, All,
  if◌then◌else◌, ◌&&◌,
}
use fair_drop.Exceptions.{Result, ok, err}
use fair_drop.Config.{microseconds_per_second}
use fair_drop.RateLimit.{
  Counter, Counters, Buckets, Verdict, user_exceeded, global_exceeded, allowed, is_before, value_at,
  increased, due, or_zero, item_of, answer, rate_limit_script, check_rate_limit,
}
use fair_drop.RateLimit.Writes.{other_counted, user_counted}

-- A request that is checked, at an instant.
pub record Request : Type 0 where
  pub at : ℕ
  pub buckets : Buckets
  pub ttl : ℕ

abbrev pub is_ok : Result (Unit {0}) → Bool
is_ok (ok _) = true
is_ok (err _) = false

not_allowed : (verdict : Verdict) → verdict ≢ allowed → is_ok (answer verdict) ≡ false
not_allowed user_exceeded h = refl
not_allowed global_exceeded h = refl
not_allowed allowed h = absurd (h refl)

module _ (redis : Counters) (k : String) where
  -- Of the requests with the key `k`, taken one after another, how many pass.
  unfoldable pub count_passed : List Request → redis.Store → ℕ
  count_passed [] s = 0
  count_passed (r ∷ requests) s =
      let (a, s') = check_rate_limit redis r.at r.buckets r.ttl s in
      let rest = count_passed requests s' in
      if str_eq r.buckets.user_key k && is_ok a then suc rest else rest

  -- The counter of `k` is `n` at each instant from `start` to `stop`.
  abbrev Holds : ℕ → ℕ → ℕ → Option Counter → Type 0
  Holds start stop n e =
      ((n ≡ 0) × ((now : ℕ) → start ≤ now → value_at now e ≡ none))
      ⊎ ((d : Option ℕ) × (e ≡ some (record { value = n; deadline = d }))
          × ((now : ℕ) → now < stop → is_before now d ≡ true))

  -- A request in the window: with the key and the limit, or with other keys alone.
  pub record IsIn (start stop limit : ℕ) (r : Request) : Type 0 where
    pub from : start ≤ r.at
    pub until : r.at < stop
    pub other_item : str_eq (item_of r.buckets).0 k ≡ false
    pub mine :
        str_eq r.buckets.user_key k ≡ true
        → (r.buckets.user_limit ≡ limit) × (stop ≤ start + r.ttl * microseconds_per_second)

  value_of :
      (start stop n now : ℕ) (e : Option Counter)
      → Holds start stop n e
      → start ≤ now
      → now < stop
      → or_zero (value_at now e) ≡ n
  value_of start stop n now e (inl (zero', dead)) from until = ground (arith, dead now from)
  value_of start stop n now e (inr (d, same, live)) from until =
      rw same (ground (arith, live now until))

  -- A script with other keys leaves the counter.
  other_script :
      (now : ℕ) (user item : String) (user_limit item_limit ttl : ℕ) (s : redis.Store)
      → str_eq user k ≡ false
      → str_eq item k ≡ false
      → redis.entry k (rate_limit_script redis now user item user_limit item_limit ttl s).1
        ≡ redis.entry k s
  unfolding rate_limit_script
  other_script now user item user_limit item_limit ttl s u i =
      let cu = or_zero (redis.get now user s) in
      let ci = or_zero (redis.get now item s) in
      elim (Bool-cases (leb user_limit cu)) [
        | inl full ↦ rw full refl
        | inr free ↦ elim (Bool-cases (leb item_limit ci)) [
          | inl full ↦ rw free (rw full refl)
          | inr both ↦
              rw free (rw both (other_counted redis k now user item (cu == 0) (ci == 0) ttl s u i))
        ]
      ]

  -- What a script that allows the request makes of the counter.
  my_script :
      (now : ℕ) (item : String) (user_limit item_limit ttl : ℕ) (s : redis.Store)
      → str_eq item k ≡ false
      → let (verdict, s') = rate_limit_script redis now k item user_limit item_limit ttl s in
        let n = or_zero (value_at now (redis.entry k s)) in
        let e = some (increased now (redis.entry k s)) in
        ((verdict ≢ allowed) × (s' ≡ s))
        ⊎ ((verdict ≡ allowed)
            × (n < user_limit)
            × (redis.entry k s' ≡ (if n == 0 then due now ttl e else e)))
  unfolding rate_limit_script
  my_script now item user_limit item_limit ttl s i =
      let ci = or_zero (redis.get now item s) in
      rw (redis.get_lem now k s) (
        let cu = or_zero (value_at now (redis.entry k s)) in
        elim (Bool-cases (leb user_limit cu)) [
          | inl full ↦ rw full (inl (λ e. cc, refl))
          | inr free ↦ elim (Bool-cases (leb item_limit ci)) [
            | inl full ↦ rw free (rw full (inl (λ e. cc, refl)))
            | inr both ↦ rw free (
                rw both (
                  inr (
                    refl,
                    ground arith,
                    user_counted redis k now item (cu == 0) (ci == 0) ttl s i,
                  )))
          ]
        ])

  my_script_at :
      (now : ℕ) (user item : String) (user_limit item_limit ttl : ℕ) (s : redis.Store)
      → user ≡ k
      → str_eq item k ≡ false
      → let (verdict, s') = rate_limit_script redis now user item user_limit item_limit ttl s in
        let n = or_zero (value_at now (redis.entry k s)) in
        let e = some (increased now (redis.entry k s)) in
        ((verdict ≢ allowed) × (s' ≡ s))
        ⊎ ((verdict ≡ allowed)
            × (n < user_limit)
            × (redis.entry k s' ≡ (if n == 0 then due now ttl e else e)))
  my_script_at now user item user_limit item_limit ttl s same i =
      rw same (my_script now item user_limit item_limit ttl s i)

  increased_dead :
      (now : ℕ) (e : Option Counter)
      → value_at now e ≡ none
      → increased now e ≡ record { value = 1; deadline = none }
  increased_dead now none h = refl
  increased_dead now (some c) h = ground arith

  Holds-counted :
      (start stop n now ttl : ℕ) (e : Option Counter)
      → Holds start stop n e
      → start ≤ now
      → now < stop
      → stop ≤ start + ttl * microseconds_per_second
      → Holds start stop
          (suc n)
          (if n == 0 then due now ttl (some (increased now e)) else some (increased now e))
  Holds-counted start stop n now ttl e (inl (zero', dead)) from until long = rw zero' (
      rw (increased_dead now e (dead now from))
        (inr (some (now + ttl * microseconds_per_second), refl, (λ later before. ground arith))))
  Holds-counted start stop n now ttl e (inr (d, same, live)) from until long = rw same (
      rw (live now until) (elim (Bool-cases (n == 0)) [
        | inl first ↦ rw first (
            rw (live now until) (
              inr
                (some (now + ttl * microseconds_per_second), refl, (λ later before. ground arith))))
        | inr more ↦ rw more (inr (d, refl, live))
      ]))

  Holds-check :
      (start stop limit n : ℕ) (r : Request) (s : redis.Store)
      → IsIn start stop limit r
      → Holds start stop n (redis.entry k s)
      → let (a, s') = check_rate_limit redis r.at r.buckets r.ttl s in
        ((str_eq r.buckets.user_key k && is_ok a ≡ false) × Holds start stop n (redis.entry k s'))
        ⊎ ((str_eq r.buckets.user_key k && is_ok a ≡ true)
            × (n < limit)
            × Holds start stop (suc n) (redis.entry k s'))
  unfolding check_rate_limit
  Holds-check start stop limit n r s w h = elim (Bool-cases (str_eq r.buckets.user_key k)) [
    | inr other ↦ rw other (
        inl (
          refl,
          rw
              (other_script r.at r.buckets.user_key (item_of r.buckets).0 r.buckets.user_limit
                (item_of r.buckets).1 r.ttl s other w.other_item)
              h,
        ))
    | inl mine ↦
        let same = (str_eq_iff r.buckets.user_key k).0 mine in
        let (limited, long) = w.mine mine in
        let now_n = value_of start stop n r.at (redis.entry k s) h w.from w.until in
        elim (my_script_at r.at r.buckets.user_key (item_of r.buckets).0 r.buckets.user_limit
          (item_of r.buckets).1 r.ttl s same w.other_item) [
            | inl (refused, unchanged) ↦ inl (rw mine (not_allowed _ refused), rw unchanged h)
            | inr (passed, below, after) ↦ inr (
              rw mine (rw passed refl),
              ground arith,
              rw after (
                  rw now_n (
                    Holds-counted start stop n r.at r.ttl (redis.entry k s) h w.from w.until long)),
            )
          ]
  ]

  count_from :
      (start stop limit n : ℕ) (requests : List Request) (s : redis.Store)
      → All (IsIn start stop limit) requests
      → Holds start stop n (redis.entry k s)
      → n ≤ limit
      → n + count_passed requests s ≤ limit
  unfolding count_passed
  count_from start stop limit n [] s w h fits = omega arith
  count_from start stop limit n (r ∷ requests) s w h fits =
      elim (Holds-check start stop limit n r s w.0 h) [
        | inl (missed, h') ↦ ground (
          arith,
          count_from start stop limit n requests (check_rate_limit redis r.at r.buckets r.ttl s).1
              w.1 h' fits,
        )
        | inr (passed, below, h') ↦ ground (
          arith,
          count_from start stop limit (suc n) requests
              (check_rate_limit redis r.at r.buckets r.ttl s).1 w.1 h' (omega arith),
        )
      ]

-- Where the counter of a key is not live when a window opens, then of the requests that are checked
-- within the window, in any order with requests for other keys, at most `limit` pass with that key,
-- provided that its requests have that limit and a time to live no shorter than the window.
pub count_passed-le :
    (redis : Counters) (k : String) (start stop limit : ℕ) (requests : List Request)
    (s : redis.Store)
    → ((now : ℕ) → start ≤ now → redis.get now k s ≡ none)
    → All (IsIn redis k start stop limit) requests
    → count_passed redis k requests s ≤ limit
count_passed-le redis k start stop limit requests s idle window = omega (
  arith,
  count_from redis k start stop limit 0 requests s window
      (inl (refl, λ now from. sym (redis.get_lem now k s) ∙ idle now from)) (omega arith),
)

-- ===== src/RateLimit/Deadlines.antt =====
-- No key is blocked for good.
use fair_drop.Common.{
  ℕ, ◌+◌, ◌*◌, ◌≤◌, ◌<◌, ◌≡◌, ◌≢◌, refl, sym, ◌∙◌, inl, inr, Bool, false, String, Option, none,
  some, arith, leb, ◌==◌, str_eq, str_eq_iff, Bool-cases, if◌then◌else◌,
}
use fair_drop.Exceptions.{ok}
use fair_drop.RateLimit.{
  Counter, Counters, Buckets, is_before, value_at, increased, due, or_zero, item_of, counted,
  rate_limit_script, check_rate_limit,
}
use fair_drop.RateLimit.Writes.{other_counted, user_counted, item_counted}

abbrev IsTemporary : Option Counter → Type 0
IsTemporary e = (c : Counter) → e ≡ some c → (d : ℕ) × (c.deadline ≡ some d)

-- Every counter has an instant from which it is gone.
abbrev pub HasDeadlines : (redis : Counters) → redis.Store → Type 0
HasDeadlines redis s =
    (k : String) (c : Counter) → redis.entry k s ≡ some c → (d : ℕ) × (c.deadline ≡ some d)

due-IsTemporary : (now ttl : ℕ) (e : Option Counter) → IsTemporary (due now ttl e)
due-IsTemporary now ttl none c h = cc
due-IsTemporary now ttl (some b) c h = elim (Bool-cases (is_before now b.deadline)) [
  | inl live ↦ (now + ttl * 1000000, ground arith)
  | inr gone ↦ absurd (ground arith)
]

-- A counter that was not there, or was at zero, is given a deadline; another keeps its own.
counted-IsTemporary :
    (now ttl : ℕ) (e : Option Counter)
    → IsTemporary e
    → let e' = some (increased now e) in
      IsTemporary (if or_zero (value_at now e) == 0 then due now ttl e' else e')
counted-IsTemporary now ttl e t = elim (Bool-cases (or_zero (value_at now e) == 0)) [
  | inl first ↦ rw first (due-IsTemporary now ttl (some (increased now e)))
  | inr more ↦ rw more (kept now e t more)
]
  where
    kept :
        (now : ℕ) (e : Option Counter)
        → IsTemporary e
        → or_zero (value_at now e) == 0 ≡ false
        → IsTemporary (some (increased now e))
    kept now none t more c h = cc
    kept now (some b) t more c h =
        let (d, e') = t b refl in
        elim (Bool-cases (is_before now b.deadline)) [
          | inl live ↦ (d, ground arith)
          | inr gone ↦ absurd (ground arith)
        ]

module _ (redis : Counters) where
  user_written :
      (now : ℕ) (user item k : String) (b : Bool) (ttl : ℕ) (s : redis.Store)
      → user ≡ k
      → str_eq item k ≡ false
      → IsTemporary (redis.entry k s)
      → IsTemporary (
          redis.entry k (counted redis now user item (or_zero (redis.get now user s) == 0) b ttl s))
  user_written now user item k b ttl s same i t = rw same (
      rw (user_counted redis k now item (or_zero (redis.get now k s) == 0) b ttl s i)
        (rw (redis.get_lem now k s) (counted-IsTemporary now ttl (redis.entry k s) t)))

  item_written :
      (now : ℕ) (user item k : String) (a : Bool) (ttl : ℕ) (s : redis.Store)
      → item ≡ k
      → str_eq user k ≡ false
      → IsTemporary (redis.entry k s)
      → IsTemporary (
          redis.entry k (counted redis now user item a (or_zero (redis.get now item s) == 0) ttl s))
  item_written now user item k a ttl s same u t = rw same (
      rw (item_counted redis k now user a (or_zero (redis.get now k s) == 0) ttl s u)
        (rw (redis.get_lem now k s) (counted-IsTemporary now ttl (redis.entry k s) t)))

  counted-HasDeadlines :
      (now : ℕ) (user item : String) (ttl : ℕ) (s : redis.Store)
      → user ≢ item
      → HasDeadlines redis s
      → HasDeadlines redis (
          counted redis now user item
            (or_zero (redis.get now user s) == 0)
            (or_zero (redis.get now item s) == 0)
            ttl
            s)
  counted-HasDeadlines now user item ttl s apart t k =
      let a = or_zero (redis.get now user s) == 0 in
      let b = or_zero (redis.get now item s) == 0 in
      elim (Bool-cases (str_eq user k)) [
        | inl mine ↦ elim (Bool-cases (str_eq item k)) [
          | inl both ↦
              absurd (apart ((str_eq_iff user k).0 mine ∙ sym ((str_eq_iff item k).0 both)))
          | inr other ↦
              user_written now user item k b ttl s ((str_eq_iff user k).0 mine) other (t k)
        ]
        | inr other ↦ elim (Bool-cases (str_eq item k)) [
          | inl mine ↦ item_written now user item k a ttl s ((str_eq_iff item k).0 mine) other (t k)
          | inr neither ↦ rw (other_counted redis k now user item a b ttl s other neither) (t k)
        ]
      ]

  -- Where every counter has a deadline, every counter has one after a check, whether it passes or
  -- not, for two different keys.
  pub check_rate_limit-HasDeadlines :
      (now : ℕ) (b : Buckets) (ttl : ℕ) (s : redis.Store)
      → b.user_key ≢ (item_of b).0
      → HasDeadlines redis s
      → HasDeadlines redis (check_rate_limit redis now b ttl s).1
  unfolding check_rate_limit rate_limit_script
  check_rate_limit-HasDeadlines now b ttl s apart t =
      elim (Bool-cases (leb b.user_limit (or_zero (redis.get now b.user_key s)))) [
        | inl full ↦ rw full t
        | inr free ↦
            elim (Bool-cases (leb (item_of b).1 (or_zero (redis.get now (item_of b).0 s)))) [
              | inl full ↦ rw free (rw full t)
              | inr both ↦
                  rw free
                    (rw both (counted-HasDeadlines now b.user_key (item_of b).0 ttl s apart t))
            ]
      ]

  -- The instant from which a counter is gone.
  end_of :
      (e : Option Counter) → IsTemporary e → (t : ℕ) × ((now : ℕ) → t ≤ now → value_at now e ≡ none)
  end_of none t = (0, λ now past. refl)
  end_of (some c) t = let (d, e) = t c refl in (d, λ now past. ground arith)

  -- Where every counter has a deadline, a request with positive limits passes from some instant on,
  -- if no other request is counted before.
  pub check_rate_limit-recovers :
      (b : Buckets) (ttl : ℕ) (s : redis.Store)
      → 0 < b.user_limit
      → 0 < (item_of b).1
      → HasDeadlines redis s
      → (t : ℕ) × ((now : ℕ) → t ≤ now → (check_rate_limit redis now b ttl s).0 ≡ ok tt)
  unfolding check_rate_limit rate_limit_script
  check_rate_limit-recovers b ttl s user item t =
      let (d, user_gone) = end_of (redis.entry b.user_key s) (t b.user_key) in
      let (d', item_gone) = end_of (redis.entry (item_of b).0 s) (t (item_of b).0) in
      (
        d + d',
        λ now past.
            let u = redis.get_lem now b.user_key s ∙ user_gone now (omega arith) in
            let i = redis.get_lem now (item_of b).0 s ∙ item_gone now (omega arith) in
            rw u (rw i (ground arith)),
      )

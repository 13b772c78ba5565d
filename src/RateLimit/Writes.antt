-- ===== src/RateLimit/Writes.antt =====
-- What a request that passes makes of one counter.
use fair_drop.Common.{
  ℕ, ◌≡◌, refl, ap, ◌∙◌, Bool, true, false, String, some, str_eq, str_eq_refl, if◌then◌else◌,
}
use fair_drop.RateLimit.{Counters, increased, due, expire_if, counted}

module _ (redis : Counters) (k : String) where
  other_expire_if :
      (b : Bool) (now : ℕ) (j : String) (ttl : ℕ) (s : redis.Store)
      → str_eq j k ≡ false
      → redis.entry k (expire_if redis b now j ttl s) ≡ redis.entry k s
  other_expire_if true now j ttl s other = redis.entry-expire k now j ttl s ∙ rw other
  other_expire_if false now j ttl s other = refl

  other_incr :
      (now : ℕ) (j : String) (s : redis.Store)
      → str_eq j k ≡ false
      → redis.entry k (redis.incr now j s) ≡ redis.entry k s
  other_incr now j s other = redis.entry-incr k now j s ∙ rw other

  pub other_counted :
      (now : ℕ) (user item : String) (a b : Bool) (ttl : ℕ) (s : redis.Store)
      → str_eq user k ≡ false
      → str_eq item k ≡ false
      → redis.entry k (counted redis now user item a b ttl s) ≡ redis.entry k s
  other_counted now user item a b ttl s u i =
      other_expire_if b now item ttl _ i
      ∙ other_expire_if a now user ttl _ u
      ∙ other_incr now item _ i
      ∙ other_incr now user s u

  own_expire_if :
      (a : Bool) (now ttl : ℕ) (s : redis.Store)
      → redis.entry k (expire_if redis a now k ttl s)
        ≡ (if a then due now ttl (redis.entry k s) else redis.entry k s)
  own_expire_if true now ttl s = redis.entry-expire k now k ttl s ∙ rw (str_eq_refl k)
  own_expire_if false now ttl s = refl

  own_incr :
      (now : ℕ) (s : redis.Store)
      → redis.entry k (redis.incr now k s) ≡ some (increased now (redis.entry k s))
  own_incr now s = redis.entry-incr k now k s ∙ rw (str_eq_refl k)

  -- The counter of the first key, where the second is another.
  pub user_counted :
      (now : ℕ) (item : String) (a b : Bool) (ttl : ℕ) (s : redis.Store)
      → str_eq item k ≡ false
      → let e = some (increased now (redis.entry k s)) in
        redis.entry k (counted redis now k item a b ttl s) ≡ (if a then due now ttl e else e)
  user_counted now item a b ttl s i =
      other_expire_if b now item ttl _ i
      ∙ own_expire_if a now ttl _
      ∙ ap (λ e. if a then due now ttl e else e) (other_incr now item _ i ∙ own_incr now s)

  -- The counter of the second key, where the first is another.
  pub item_counted :
      (now : ℕ) (user : String) (a b : Bool) (ttl : ℕ) (s : redis.Store)
      → str_eq user k ≡ false
      → let e = some (increased now (redis.entry k s)) in
        redis.entry k (counted redis now user k a b ttl s) ≡ (if b then due now ttl e else e)
  item_counted now user a b ttl s u =
      own_expire_if b now ttl _
      ∙ ap (λ e. if b then due now ttl e else e)
          (other_expire_if a now user ttl _ u
            ∙ own_incr now _
            ∙ ap (λ e. some (increased now e)) (other_incr now user s u))

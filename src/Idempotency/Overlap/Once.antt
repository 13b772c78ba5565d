-- ===== src/Idempotency/Overlap/Once.antt =====
-- Requests that overlap, of which each takes something that it takes once: two of the same label do
-- not both go through.
use fair_drop.Common.{
  ℕ, ◌≡◌, ◌≢◌, refl, sym, ◌∙◌, ap, subst, inl, inr, String, Option, none, some, List, [], ◌∷◌,
  str_eq, ◌==◌, ==_iff, Bool-cases, Option-cases,
}
use fair_drop.Exceptions.{Result, ok, err}
use fair_drop.Idempotency.{Cache, HttpRequest, fresh, Codec, redis_key}
use fair_drop.Idempotency.Overlap.{
  Stage, waiting, missed, ran, answered, Event, reads, handles, stores, at_stage, World, read_cache,
  looked_up, write_key, read_step, handle_step, store_step, perform, perform_all,
}

-- The handler has gone through.
abbrev pub IsThrough {ℓ} : {R : Type ℓ} → Stage R → Type 0
IsThrough (ran (ok r)) = Unit
IsThrough (answered (ok (fresh r))) = Unit
IsThrough _ = ⊥

module _ {ℓ κ} {S : Type ℓ} {R : Type κ} (cache : Cache) (codec : Codec R) (ttl : ℕ)
    (request : ℕ → HttpRequest) (func : ℕ → ℕ → S → Result R × S) where
  read-not_through :
      (now : ℕ) (q : HttpRequest) (store : cache.Store)
      → IsThrough (read_cache cache codec ttl request func now q store)
      → ⊥
  unfolding read_cache
  read-not_through now q store = elim (Option-cases q.idempotency_key) [
    | inl missing ↦ rw missing (λ h. h)
    | inr (key, named) ↦ elim (Bool-cases (str_eq key "")) [
      | inl empty ↦ rw (named, empty) (λ h. h)
      | inr there ↦
          rw (named, there)
            (looked-not_through (cache.get now (redis_key q.method q.path key) store))
    ]
  ]
    where
      looked-not_through :
          (text : Option String) → IsThrough (looked_up cache codec ttl request func text) → ⊥
      looked-not_through none = λ z. z
      looked-not_through (some text) = elim (Bool-cases (str_eq text "")) [
        | inl blank ↦ rw blank (λ z. z)
        | inr full ↦ rw full (λ z. z)
      ]

  module _ {L : Type 0} (label : ℕ → L) (Good : S → Type 0) (Taken : L → S → Type 0)
      (keeps : (i now : ℕ) (s : S) → Good s → Good (func i now s).1)
      (takes : (i now : ℕ) (s s' : S) (r : R)
        → Good s
        → func i now s ≡ (ok r, s')
        → Taken (label i) s')
      (stays : (i now : ℕ) (l : L) (s : S) → Good s → Taken l s → Taken l (func i now s).1)
      (refuses : (i now : ℕ) (s s' : S) (r : R)
        → Taken (label i) s
        → func i now s ≢ (ok r, s')) where
    -- The state is good; what has gone through is taken, and nothing of its label has gone through beside it.
    abbrev IsExclusive : World cache codec ttl request func → Type 0
    IsExclusive w =
        Good w.state
        × ((i : ℕ) → IsThrough (w.stages i) → Taken (label i) w.state)
        × ((i j : ℕ) → label i ≡ label j → IsThrough (w.stages i) → IsThrough (w.stages j) → i ≡ j)

    back :
        (i k : ℕ) (stage : Stage R) (stages : ℕ → Stage R)
        → (IsThrough stage → IsThrough (stages i))
        → IsThrough (at_stage i stage stages k)
        → IsThrough (stages k)
    back i k stage stages h = elim (Bool-cases (i == k)) [
      | inl same ↦
          rw same (subst (λ j. IsThrough stage → IsThrough (stages j)) ((==_iff i k).0 same) h)
      | inr other ↦ rw other (λ t. t)
    ]

    -- A step that lets nothing new through and leaves the state.
    kept :
        (i : ℕ) (stage : Stage R) (store : cache.Store) (w : World cache codec ttl request func)
        → (IsThrough stage → IsThrough (w.stages i))
        → IsExclusive w
        → IsExclusive (record w { store = store; stages = at_stage i stage w.stages })
    kept i stage store w h (good, taken, single) = (
      good,
      λ k through. taken k (back i k stage w.stages h through),
      λ j k same first second.
          single j k same (back i j stage w.stages h first) (back i k stage w.stages h second),
    )

    through :
        (i : ℕ) (stage : Stage R) (w : World cache codec ttl request func)
        → w.stages i ≡ stage
        → IsThrough stage
        → IsThrough (w.stages i)
    through i stage w h = subst IsThrough (sym h)

    read-IsExclusive :
        (i now : ℕ) (w : World cache codec ttl request func) (stage : Stage R)
        → w.stages i ≡ stage
        → IsExclusive w
        → IsExclusive (read_step cache codec ttl request func i now w stage)
    read-IsExclusive i now w waiting h inv =
        kept i (read_cache cache codec ttl request func now (request i) w.store) w.store w
          (λ t. absurd (read-not_through now (request i) w.store t)) inv
    read-IsExclusive i now w missed h inv = inv
    read-IsExclusive i now w (ran m) h inv = inv
    read-IsExclusive i now w (answered a) h inv = inv

    store-IsExclusive :
        (i now : ℕ) (w : World cache codec ttl request func) (stage : Stage R)
        → w.stages i ≡ stage
        → IsExclusive w
        → IsExclusive (store_step cache codec ttl request func i now w stage)
    store-IsExclusive i now w (ran (ok r)) h inv =
        kept i (answered (ok (fresh r)))
          (write_key cache codec ttl request func now (request i) (request i).idempotency_key r
            w.store)
          w (through i (ran (ok r)) w h) inv
    store-IsExclusive i now w (ran (err e)) h inv =
        kept i (answered (err e)) w.store w (λ t. absurd t) inv
    store-IsExclusive i now w waiting h inv = inv
    store-IsExclusive i now w missed h inv = inv
    store-IsExclusive i now w (answered a) h inv = inv

    handled :
        (i now : ℕ) (w : World cache codec ttl request func) (m : Result R) (s' : S)
        → w.stages i ≡ missed
        → func i now w.state ≡ (m, s')
        → IsExclusive w
        → IsExclusive (record w { state = s'; stages = at_stage i (ran m) w.stages })
    handled i now w (err e) s' h run (good, taken, single) = (
      subst Good (ap (λ x. x.1) run) (keeps i now w.state good),
      λ k t. subst (Taken (label k)) (ap (λ x. x.1) run) (
          stays i now (label k) w.state good
            (taken k (back i k (ran (err e)) w.stages (λ z. absurd z) t))),
      λ j k same first second.
          single j k same (back i j (ran (err e)) w.stages (λ z. absurd z) first)
            (back i k (ran (err e)) w.stages (λ z. absurd z) second),
    )
    handled i now w (ok r) s' h run (good, taken, single) = (
      subst Good (ap (λ x. x.1) run) (keeps i now w.state good),
      λ k. elim (Bool-cases (i == k)) [
        | inl same ↦ rw same (λ t.
            subst (λ x. Taken (label x) s') ((==_iff i k).0 same)
              (takes i now w.state s' r good run))
        | inr other ↦ rw other (λ t.
            subst (Taken (label k)) (ap (λ x. x.1) run)
              (stays i now (label k) w.state good (taken k t)))
      ],
      λ j k same. elim (Bool-cases (i == j)) [
        | inl first ↦ elim (Bool-cases (i == k)) [
          | inl second ↦ λ t u. sym ((==_iff i j).0 first) ∙ (==_iff i k).0 second
          | inr other ↦
              rw other (λ t u. absurd (clash k (ap label ((==_iff i j).0 first) ∙ same) u))
        ]
        | inr other ↦ elim (Bool-cases (i == k)) [
          | inl second ↦
              rw other (λ t u. absurd (clash j (ap label ((==_iff i k).0 second) ∙ sym same) t))
          | inr neither ↦ rw (other, neither) (single j k same)
        ]
      ],
    )
      where
        clash : (k : ℕ) → label i ≡ label k → IsThrough (w.stages k) → ⊥
        clash k same t =
            refuses i now w.state s' r (subst (λ l. Taken l w.state) (sym same) (taken k t)) run

    handle-IsExclusive :
        (i now : ℕ) (w : World cache codec ttl request func) (stage : Stage R)
        → w.stages i ≡ stage
        → IsExclusive w
        → IsExclusive (handle_step cache codec ttl request func i now w stage)
    handle-IsExclusive i now w missed h inv =
        handled i now w (func i now w.state).0 (func i now w.state).1 h refl inv
    handle-IsExclusive i now w waiting h inv = inv
    handle-IsExclusive i now w (ran m) h inv = inv
    handle-IsExclusive i now w (answered a) h inv = inv

    perform-IsExclusive :
        (e : Event) (w : World cache codec ttl request func)
        → IsExclusive w
        → IsExclusive (perform cache codec ttl request func e w)
    unfolding perform
    perform-IsExclusive (reads i now) w inv = read-IsExclusive i now w (w.stages i) refl inv
    perform-IsExclusive (handles i now) w inv = handle-IsExclusive i now w (w.stages i) refl inv
    perform-IsExclusive (stores i now) w inv = store-IsExclusive i now w (w.stages i) refl inv

    perform_all-IsExclusive :
        (es : List Event) (w : World cache codec ttl request func)
        → IsExclusive w
        → IsExclusive (perform_all cache codec ttl request func es w)
    unfolding perform_all
    perform_all-IsExclusive [] w inv = inv
    perform_all-IsExclusive (e ∷ es) w inv =
        perform_all-IsExclusive es (perform cache codec ttl request func e w)
          (perform-IsExclusive e w inv)

    -- Two requests of the same label do not both go through, in whatever order the steps of all
    -- requests are taken.
    pub same_request :
        (es : List Event) (w : World cache codec ttl request func) (i j : ℕ)
        → ((k : ℕ) → w.stages k ≡ waiting)
        → Good w.state
        → label i ≡ label j
        → IsThrough ((perform_all cache codec ttl request func es w).stages i)
        → IsThrough ((perform_all cache codec ttl request func es w).stages j)
        → i ≡ j
    same_request es w i j start good same first second =
        let none_yet : (k : ℕ) → IsThrough (w.stages k) → ⊥ =
          λ k. subst (λ st. IsThrough st → ⊥) (sym (start k)) (λ z. z) in
        (perform_all-IsExclusive es w
            (good, λ k t. absurd (none_yet k t), λ k l e t u. absurd (none_yet k t))).2
          i j same first second

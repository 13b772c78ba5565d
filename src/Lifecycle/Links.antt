-- ===== src/Lifecycle/Links.antt =====
-- The four ways in which the two tables change keep the invariant.
use fair_drop.Common.{
  ◌⊎◌, ◌≢◌, ℕ, ◌≡◌, sym, ◌∙◌, inl, inr, true, none, some, [], ◌∷◌, ◌++◌, arith, Bool-cases, ◌==◌,
}
use fair_drop.Common.Table.{Table, get, put}
use fair_drop.Common.Table.Laws.{get-put, get-append, put-IsKeyed, append-IsKeyed}
use fair_drop.Models.{Reservation, Order}
use fair_drop.Lifecycle.{agrees, IsBacked, IsLinked}

module _ (R : Table Reservation) (O : Table Order) (c : IsLinked R O) where
  -- A new reservation without an order.
  module _ (i : ℕ) (r : Reservation) (new : get i R ≡ none) (free : r.order_id ≡ none) where
    new_link :
        (j : ℕ) (q : Reservation) (order_id : ℕ)
        → get j (R ++ (i, r) ∷ []) ≡ some q
        → q.order_id ≡ some order_id
        → get j R ≡ some q
    new_link j q order_id e l = ground (arith, get-append j i r R)

    new-IsBacked : (order_id : ℕ) → IsBacked R order_id → IsBacked (R ++ (i, r) ∷ []) order_id
    new-IsBacked order_id (j, q, e, l) = (j, q, ground (arith, get-append j i r R), l)

    pub add_reservation-IsLinked : IsLinked (R ++ (i, r) ∷ []) O
    add_reservation-IsLinked = record {
      reservations_keyed = append-IsKeyed i r R new c.reservations_keyed;
      orders_keyed = c.orders_keyed;
      linked = λ j q order_id e l. c.linked j q order_id (new_link j q order_id e l) l;
      single = λ j q k p order_id e f l m.
          c.single j q k p order_id (new_link j q order_id e l) (new_link k p order_id f m) l m;
      backed = λ order_id o e. new-IsBacked order_id (c.backed order_id o e);
    }

  module _ (i : ℕ) (r r' : Reservation) (found : get i R ≡ some r) where
    -- A row of the written table is the new one under its key, or an old one.
    row_cases :
        (j : ℕ) (q : Reservation)
        → get j (put i r' R) ≡ some q
        → ((j ≡ i) × (q ≡ r')) ⊎ ((j ≢ i) × (get j R ≡ some q))
    row_cases j q e = ground (arith, get-put j i r' r R)

    -- A row that keeps its link to an order.
    old_link :
        (j : ℕ) (q : Reservation) (order_id : ℕ)
        → r'.order_id ≡ r.order_id
        → get j (put i r' R) ≡ some q
        → q.order_id ≡ some order_id
        → (p : Reservation) × (get j R ≡ some p) × (p.order_id ≡ some order_id)
    old_link j q order_id keep e l = elim (row_cases j q e) [
      | inl (here, new) ↦ (r, ground arith, ground arith)
      | inr (other, old) ↦ (q, old, l)
    ]

    put_single :
        r'.order_id ≡ r.order_id
        → (j : ℕ) (q : Reservation) (k : ℕ) (p : Reservation) (order_id : ℕ)
        → get j (put i r' R) ≡ some q
        → get k (put i r' R) ≡ some p
        → q.order_id ≡ some order_id
        → p.order_id ≡ some order_id
        → j ≡ k
    put_single keep j q k p order_id e f l m =
        let (q', eq, lq) = old_link j q order_id keep e l in
        let (p', ep, lp) = old_link k p order_id keep f m in c.single j q' k p' order_id eq ep lq lp

    put-IsBacked :
        r'.order_id ≡ r.order_id
        → (order_id : ℕ) → IsBacked R order_id
        → IsBacked (put i r' R) order_id
    put-IsBacked keep order_id (j, q, e, l) = elim (Bool-cases (i == j)) [
      | inl here ↦ (i, r', ground (arith, get-put i i r' r R), ground arith)
      | inr other ↦ (j, q, ground (arith, get-put j i r' r R), l)
    ]

    -- A reservation without an order is written, and stays without one.
    pub put_free-IsLinked : r.order_id ≡ none → r'.order_id ≡ none → IsLinked (put i r' R) O
    put_free-IsLinked free free' = record {
      reservations_keyed = put-IsKeyed i r' R c.reservations_keyed;
      orders_keyed = c.orders_keyed;
      linked = λ j q order_id e l. elim (row_cases j q e) [
        | inl (here, new) ↦ absurd (ground arith)
        | inr (other, old) ↦ c.linked j q order_id old l
      ];
      single = put_single (free' ∙ sym free);
      backed = λ order_id o e. put-IsBacked (free' ∙ sym free) order_id (c.backed order_id o e);
    }

    -- A reservation and its order are written together.
    module _ (order_id : ℕ) (o o' : Order) (at : get order_id O ≡ some o) where
      pub put_pair-IsLinked :
          r.order_id ≡ some order_id
          → r'.order_id ≡ r.order_id
          → r'.user_id ≡ r.user_id
          → o'.user_id ≡ r.user_id
          → agrees o'.status r'.status ≡ true
          → IsLinked (put i r' R) (put order_id o' O)
      put_pair-IsLinked link keep owner owner' fits = record {
        reservations_keyed = put-IsKeyed i r' R c.reservations_keyed;
        orders_keyed = put-IsKeyed order_id o' O c.orders_keyed;
        linked = λ j q k e l. elim (row_cases j q e) [
          | inl (here, new) ↦
              (o', ground (arith, get-put k order_id o' o O), ground arith, ground arith)
          | inr (other, old) ↦
              let (p, f, own, agr) = c.linked j q k old l in
              (
                p,
                ground (arith, get-put k order_id o' o O, c.single j q i r k old found l),
                own,
                agr,
              )
        ];
        single = put_single keep;
        backed = λ k p e. elim (Bool-cases (order_id == k)) [
          | inl same ↦ put-IsBacked keep k (i, r, found, ground arith)
          | inr other ↦
              put-IsBacked keep k (c.backed k p (ground (arith, get-put k order_id o' o O)))
        ];
      }

    -- A reservation without an order gets a new one.
    module _ (order_id : ℕ) (o : Order) (new : get order_id O ≡ none)
        (free : r.order_id ≡ none) where
      never_named : (j : ℕ) (q : Reservation) → get j R ≡ some q → q.order_id ≢ some order_id
      never_named j q e l = let (p, f, own, agr) = c.linked j q order_id e l in ground arith

      linked_single :
          r'.order_id ≡ some order_id
          → (j : ℕ) (q : Reservation) (k : ℕ) (p : Reservation) (m : ℕ)
          → get j (put i r' R) ≡ some q
          → get k (put i r' R) ≡ some p
          → q.order_id ≡ some m
          → p.order_id ≡ some m
          → j ≡ k
      linked_single link j q k p m e f l n = elim (row_cases j q e) [
        | inl (here, first) ↦ elim (row_cases k p f) [
          | inl (there, second) ↦ ground arith
          | inr (other, old) ↦ absurd (never_named k p old (ground arith))
        ]
        | inr (apart, old) ↦ elim (row_cases k p f) [
          | inl (there, second) ↦ absurd (never_named j q old (ground arith))
          | inr (other, old') ↦ c.single j q k p m old old' l n
        ]
      ]

      link-IsBacked : r'.order_id ≡ some order_id → (k : ℕ) → IsBacked R k → IsBacked (put i r' R) k
      link-IsBacked link k (j, q, e, l) = (j, q, ground (arith, get-put j i r' r R), l)

      pub put_new-IsLinked :
          r'.order_id ≡ some order_id
          → o.user_id ≡ r'.user_id
          → agrees o.status r'.status ≡ true
          → IsLinked (put i r' R) (O ++ (order_id, o) ∷ [])
      put_new-IsLinked link owner fits = record {
        reservations_keyed = put-IsKeyed i r' R c.reservations_keyed;
        orders_keyed = append-IsKeyed order_id o O new c.orders_keyed;
        linked = λ j q k e l. elim (row_cases j q e) [
          | inl (here, first) ↦
              (o, ground (arith, get-append k order_id o O new), ground arith, ground arith)
          | inr (other, old) ↦
              let (p, f, own, agr) = c.linked j q k old l in
              (p, ground (arith, get-append k order_id o O new), own, agr)
        ];
        single = linked_single link;
        backed = λ k p e. elim (Bool-cases (order_id == k)) [
          | inl same ↦ (i, r', ground (arith, get-put i i r' r R), ground arith)
          | inr other ↦
              link-IsBacked link k (c.backed k p (ground (arith, get-append k order_id o O new)))
        ];
      }

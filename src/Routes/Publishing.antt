-- ===== src/Routes/Publishing.antt =====
-- Who makes a product active through the API.
use fair_drop.Common.{
  ℕ, ◌≡◌, ◌⊎◌, refl, sym, ap, ◌∙◌, inl, inr, true, false, String, none, some, [], ◌∷◌, ◌++◌, arith,
}
use fair_drop.Common.Table.{get, put, delete, IsKeyed}
use fair_drop.Common.Table.Laws.{get-put, get-append, get-delete}
use fair_drop.Exceptions.{Result, ok, err, ◌>>=◌, Result-cases}
use fair_drop.Config.{Settings}
use fair_drop.Models.{User, Product, active, is_staff}
use fair_drop.Database.{Session, insert_product, check_product, delete_product_row}
use fair_drop.Security.{RoleChecker, call, check_permission, role_in, role_eq}
use fair_drop.Users.Access.{Jwt, get_current_user}
use fair_drop.Inventory.Schemas.{ProductCreate, ProductUpdate, product_read}
use fair_drop.Inventory.Service.{
  create_product, delete_product, get_product_row, is_active, new_product,
}
use fair_drop.Inventory.Service.Effects.{log_product_change-frame}
use fair_drop.Inventory.Admin.{change_status, approve_product}
use fair_drop.Inventory.Moderation.{
  Request, submit, update, claim, reject, target, handle, is_approve,
}
use fair_drop.Inventory.Moderation.Workflow.{IsMove, handle-IsMove}
use fair_drop.Routes.{checked_user}
use fair_drop.Routes.Inventory.{
  admin_dependency, seller_dependency, admin_and_seller_dependency, create_product_route,
  activate_product, update_product_route, delete_product_route, submit_for_moderation_route,
  approve_product_route, reject_product_route, claim_for_moderation_route,
}

-- The requests of the API that write a product, with the key that `uuid4` draws for a new one.
pub data ProductCall : Type 0 where
  create : ℕ → ProductCreate → ProductCall
  activate : ℕ → ProductCall
  edit : ℕ → ProductUpdate → ProductCall
  remove : ℕ → ProductCall
  submit_product : ℕ → ProductCall
  approve_claimed : ℕ → ProductCall
  reject_claimed : ℕ → String → ProductCall
  claim_pending : ℕ → ProductCall

abbrev session_of : Result (Product × Session) → Result Session
session_of (err e) = err e
session_of (ok (p, s)) = ok s

module _ (jwt : Jwt) (settings : Settings) (now : ℕ) (token : String) where
  -- The session that a request leaves.
  unfoldable pub serve : ProductCall → Session → Result Session
  serve (create id d) s = session_of (create_product_route jwt settings now token id d s)
  serve (activate id) s = session_of (activate_product jwt settings now token id s)
  serve (edit id d) s = session_of (update_product_route jwt settings now token id d s)
  serve (remove id) s = delete_product_route jwt settings now token id s
  serve (submit_product id) s = session_of (submit_for_moderation_route jwt settings now token id s)
  serve (approve_claimed id) s = session_of (approve_product_route jwt settings now token id s)
  serve (reject_claimed id reason) s =
      session_of (reject_product_route jwt settings now token id reason s)
  serve (claim_pending id) s = session_of (claim_for_moderation_route jwt settings now token id s)

-- A product that is active in `s'` was so in `s`.
abbrev IsQuiet : Session → Session → Type 0
IsQuiet s s' =
    (i : ℕ) (p' : Product)
    → get i s'.products ≡ some p'
    → is_active p'.status ≡ true
    → (p : Product) × (get i s.products ≡ some p) × (is_active p.status ≡ true)

session_of-ok :
    (m : Result (Product × Session)) (s' : Session)
    → session_of m ≡ ok s'
    → (p : Product) × (m ≡ ok (p, s'))
session_of-ok (err e) s' h = cc
session_of-ok (ok (p, s)) s' h = (p, ground arith)

call_same : (c : RoleChecker) (v u : User) → call c v ≡ ok u → v ≡ u
unfolding call
call_same c v u h = ground arith

pub checked_user-ok :
    (jwt : Jwt) (settings : Settings) (c : RoleChecker) (now : ℕ) (token : String) (s : Session)
    (u : User)
    → checked_user jwt settings c now token s ≡ ok u
    → (get_current_user jwt settings now token s ≡ ok u) × (call c u ≡ ok u)
unfolding checked_user
checked_user-ok jwt settings c now token s u h =
    elim (Result-cases (get_current_user jwt settings now token s)) [
      | inr (e, failed) ↦ absurd (ground arith)
      | inl (v, got) ↦
          let passed : call c v ≡ ok u = ground arith in
          let same : v ≡ u = call_same c v u passed in
          (rw (← same) got, ap (call c) (sym same) ∙ passed)
    ]

staff_call : (u : User) → call admin_dependency u ≡ ok u → is_staff u.role ≡ true
unfolding call check_permission role_in role_eq
staff_call u h = ground arith

-- A request of the workflow that is no approval.
handle-IsQuiet :
    (req : Request) (s s' : Session) (p' : Product)
    → is_approve req ≡ false
    → handle req s ≡ ok (p', s')
    → IsQuiet s s'
handle-IsQuiet req s s' p' other h i q found live =
    let m : IsMove req s s' p' = handle-IsMove req s s' p' h in
    let at_i : get i s'.products ≡ get i (put (target req) p' s.products) =
      ap (λ t. get i t.products) m.after in
    let here = get-put i (target req) p' m.p s.products m.found in
    (q, ground (arith, m.approved), live)

delete_product-IsQuiet :
    (id : ℕ) (u : User) (s s' : Session)
    → IsKeyed s.products
    → delete_product id u s ≡ ok s'
    → IsQuiet s s'
unfolding delete_product delete_product_row
delete_product-IsQuiet id u s s' keyed h i q found live =
    elim (Result-cases (get_product_row id (some u) s)) [
      | inr (e, failed) ↦ absurd (ground arith)
      | inl (p, got) ↦
          let frame = log_product_change-frame u id p (some (product_read id p)) "delete" [] s in
          let gone : s'.products ≡ delete id s.products = ground (arith, frame) in
          let here = get-delete i id s.products keyed in (q, ground arith, live)
    ]

create_product-IsQuiet :
    (settings : Settings) (now id owner : ℕ) (d : ProductCreate) (u : User) (s s' : Session)
    (p : Product)
    → create_product settings now id owner d u s ≡ ok (p, s')
    → IsQuiet s s'
unfolding create_product insert_product check_product
create_product-IsQuiet settings now id owner d u s s' p h i q found live =
    let t : Session = record s { products = s.products ++ (id, new_product now owner d) ∷ [] } in
    let frame = log_product_change-frame u id (new_product now owner d) none "create" [] t in
    let made : s'.products ≡ s.products ++ (id, new_product now owner d) ∷ [] =
      ground (arith, frame) in
    let free : get id s.products ≡ none = ground arith in
    let here = get-append i id (new_product now owner d) s.products free in (q, ground arith, live)

module _ (jwt : Jwt) (settings : Settings) (now : ℕ) (token : String) where
  abbrev IsByStaff : Session → Type 0
  IsByStaff s =
      (u : User) × (get_current_user jwt settings now token s ≡ ok u) × (is_staff u.role ≡ true)

  by_staff :
      {A : Type 0} (s : Session) (rest : User → Result A) (a : A)
      → (do u ← checked_user jwt settings admin_dependency now token s; rest u) ≡ ok a
      → IsByStaff s
  by_staff s rest a h =
      elim (Result-cases (checked_user jwt settings admin_dependency now token s)) [
        | inr (e, failed) ↦ absurd (ground arith)
        | inl (u, got) ↦
            let (current, passed) =
              checked_user-ok jwt settings admin_dependency now token s u got in
            (u, current, staff_call u passed)
      ]

  checked_then :
      {A : Type 0} (c : RoleChecker) (s : Session) (rest : User → Result A) (a : A)
      → (do u ← checked_user jwt settings c now token s; rest u) ≡ ok a
      → (u : User) × (rest u ≡ ok a)
  checked_then c s rest a h = elim (Result-cases (checked_user jwt settings c now token s)) [
    | inr (e, failed) ↦ absurd (ground arith)
    | inl (u, got) ↦ (u, ground arith)
  ]

  moved :
      (c : RoleChecker) (req : User → Request) (s s' : Session)
      → ((u : User) → is_approve (req u) ≡ false)
      → session_of (do u ← checked_user jwt settings c now token s; handle (req u) s) ≡ ok s'
      → IsQuiet s s'
  moved c req s s' other h =
      let (p', done) = session_of-ok _ s' h in
      let (u, went) = checked_then c s (λ u. handle (req u) s) (p', s') done in
      handle-IsQuiet (req u) s s' p' (other u) went

  -- A request of the API that makes a product active is of an admin or a moderator: after any
  -- request that writes a product, whatever its token, a product that is active was so before, or
  -- the token is of a user of the staff. The keys of the products are distinct.
  pub serve-IsByStaff :
      (request : ProductCall) (s s' : Session) (i : ℕ) (p' : Product)
      → IsKeyed s.products
      → serve jwt settings now token request s ≡ ok s'
      → get i s'.products ≡ some p'
      → is_active p'.status ≡ true
      → ((p : Product) × (get i s.products ≡ some p) × (is_active p.status ≡ true)) ⊎ IsByStaff s
  unfolding serve create_product_route activate_product update_product_route delete_product_route
      submit_for_moderation_route approve_product_route reject_product_route
      claim_for_moderation_route handle
  serve-IsByStaff (create id d) s s' i p' keyed h found live =
      let (p, done) = session_of-ok _ s' h in
      let (u, went) =
        checked_then seller_dependency s (λ u. create_product settings now id u.id d u s) (p, s')
          done in
      inl (create_product-IsQuiet settings now id u.id d u s s' p went i p' found live)
  serve-IsByStaff (activate id) s s' i p' keyed h found live =
      let (p, done) = session_of-ok _ s' h in
      inr (by_staff s (λ u. change_status id active u s) (p, s') done)
  serve-IsByStaff (edit id d) s s' i p' keyed h found live =
      inl (moved admin_and_seller_dependency (update id d) s s' (λ u. refl) h i p' found live)
  serve-IsByStaff (remove id) s s' i p' keyed h found live =
      let (u, went) = checked_then admin_dependency s (λ u. delete_product id u s) s' h in
      inl (delete_product-IsQuiet id u s s' keyed went i p' found live)
  serve-IsByStaff (submit_product id) s s' i p' keyed h found live =
      inl (moved seller_dependency (submit id) s s' (λ u. refl) h i p' found live)
  serve-IsByStaff (approve_claimed id) s s' i p' keyed h found live =
      let (p, done) = session_of-ok _ s' h in
      inr (by_staff s (λ u. approve_product id u s) (p, s') done)
  serve-IsByStaff (reject_claimed id reason) s s' i p' keyed h found live =
      inl (moved admin_dependency (λ u. reject id u reason) s s' (λ u. refl) h i p' found live)
  serve-IsByStaff (claim_pending id) s s' i p' keyed h found live =
      inl (moved admin_dependency (claim id) s s' (λ u. refl) h i p' found live)

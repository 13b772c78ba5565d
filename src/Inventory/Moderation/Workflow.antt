-- ===== src/Inventory/Moderation/Workflow.antt =====
-- Every request of the workflow makes a documented move of its own product.
use fair_drop.Common.{
  ℕ, ◌≡◌, ◌≢◌, refl, inl, inr, true, false, String, Option, none, some, [], ◌∷◌, arith,
}
use fair_drop.Common.Table.{get, put}
use fair_drop.Exceptions.{ok, Result-cases}
use fair_drop.Json.{Dict, str}
use fair_drop.Models.{
  User, Product, ProductStatus, draft, active, archived, pending_moderation, moderation_in_progress,
  rejected,
}
use fair_drop.Database.{Session}
use fair_drop.Inventory.Schemas.{ProductUpdate, apply_update}
use fair_drop.Inventory.Service.{
  submit_for_moderation, update_product, get_product_row, save_product, edited, is_submittable,
  is_under_moderation, is_active,
}
use fair_drop.Inventory.Service.Effects.{get_product_row-ok, save_product-ok}
use fair_drop.Inventory.Admin.{
  claim_for_moderation, approve_product, reject_product, is_in_progress, is_pending_moderation,
}
use fair_drop.AuditLog.Changes.{IsLogged}
use fair_drop.Inventory.Moderation.Audited.{save_product-IsLogged}
use fair_drop.Inventory.Moderation.{
  Request, submit, update, claim, approve, reject, target, actor, action, handle, is_approve,
  Transition, submit_draft, resubmit, start, publish, turn_down, revise, edit_draft, edit_rejected,
  edit_archived, HasModerator,
}

-- A request that has succeeded: the product, its move, and the row written.
pub record IsMove (req : Request) (s s' : Session) (p' : Product) : Type 0 where
  pub p : Product
  pub found : get (target req) s.products ≡ some p
  pub move : Transition p.status p'.status
  pub approved : is_active p'.status ≡ true → is_approve req ≡ true
  pub moderator : HasModerator p → HasModerator p'
  pub owner : p'.owner_id ≡ p.owner_id
  pub logged :
      p'.status ≢ p.status → IsLogged (actor req).id (target req) "product" (action req) s s'
  pub after :
      s' ≡ record s { products = put (target req) p' s.products; audit_logs = s'.audit_logs }

submit_move : (a : ProductStatus) → is_submittable a ≡ true → Transition a pending_moderation
submit_move draft h = submit_draft
submit_move rejected h = resubmit
submit_move active h = cc
submit_move archived h = cc
submit_move pending_moderation h = cc
submit_move moderation_in_progress h = cc

claim_move :
    (a : ProductStatus) → is_pending_moderation a ≡ true → Transition a moderation_in_progress
claim_move pending_moderation h = start
claim_move draft h = cc
claim_move active h = cc
claim_move archived h = cc
claim_move moderation_in_progress h = cc
claim_move rejected h = cc

approve_move : (a : ProductStatus) → is_in_progress a ≡ true → Transition a active
approve_move moderation_in_progress h = publish
approve_move draft h = cc
approve_move active h = cc
approve_move archived h = cc
approve_move pending_moderation h = cc
approve_move rejected h = cc

reject_move : (a : ProductStatus) → is_in_progress a ≡ true → Transition a rejected
reject_move moderation_in_progress h = turn_down
reject_move draft h = cc
reject_move active h = cc
reject_move archived h = cc
reject_move pending_moderation h = cc
reject_move rejected h = cc

edit_move :
    (p : Product) → is_under_moderation p.status ≡ false → Transition p.status (edited p).status
edit_move p h = go p.status h refl
  where
    go :
        (a : ProductStatus)
        → is_under_moderation a ≡ false
        → p.status ≡ a
        → Transition p.status (edited p).status
    go draft h e = rw (e, edited) edit_draft
    go rejected h e = rw (e, edited) edit_rejected
    go archived h e = rw (e, edited) edit_archived
    go active h e = rw (e, edited) revise
    go pending_moderation h e = cc
    go moderation_in_progress h e = cc

module _ (req : Request) (s s' : Session) (p next p' : Product) where
  moved-IsMove :
      (viewer : Option User) (metadata : Dict)
      → get_product_row (target req) viewer s ≡ ok p
      → save_product (actor req) (target req) p next (action req) metadata s ≡ ok (p', s')
      → Transition p.status next.status
      → (is_active next.status ≡ true → is_approve req ≡ true)
      → (HasModerator p → HasModerator next)
      → next.owner_id ≡ p.owner_id
      → IsMove req s s' p'
  moved-IsMove viewer metadata got saved move approved moderator owner =
      let (same, after) =
        save_product-ok (actor req) (target req) p next p' (action req) metadata s s' saved in
      record {
        p = p;
        found = (get_product_row-ok (target req) viewer s p got).0;
        move = rw same move;
        approved = rw same approved;
        moderator = rw same moderator;
        owner = rw same owner;
        after = rw same after;
        logged = λ moved.
            save_product-IsLogged (actor req) (target req) p next p' (action req) metadata s s'
              (λ e. moved (ground (arith, same))) saved;
      }

module _ (id : ℕ) (u : User) (s s' : Session) (p' : Product) where
  submit-IsMove : submit_for_moderation id u s ≡ ok (p', s') → IsMove (submit id u) s s' p'
  unfolding submit_for_moderation
  submit-IsMove h = elim (Result-cases (get_product_row id (some u) s)) [
    | inr (e, failed) ↦ absurd (ground arith)
    | inl (p, got) ↦
        moved-IsMove (submit id u) s s' p
          (record p { status = pending_moderation; moderator_id = none }) p' (some u) [] got
          (ground arith) (submit_move p.status (ground arith)) (λ h. cc) (λ m. refl) refl
  ]

  claim-IsMove : claim_for_moderation id u s ≡ ok (p', s') → IsMove (claim id u) s s' p'
  unfolding claim_for_moderation
  claim-IsMove h = elim (Result-cases (get_product_row id none s)) [
    | inr (e, failed) ↦ absurd (ground arith)
    | inl (p, got) ↦
        moved-IsMove (claim id u) s s' p
          (record p { status = moderation_in_progress; moderator_id = some u.id }) p' none [] got
          (ground arith) (claim_move p.status (ground arith)) (λ h. cc) (λ m. refl) refl
  ]

  approve-IsMove : approve_product id u s ≡ ok (p', s') → IsMove (approve id u) s s' p'
  unfolding approve_product
  approve-IsMove h = elim (Result-cases (get_product_row id none s)) [
    | inr (e, failed) ↦ absurd (ground arith)
    | inl (p, got) ↦
        moved-IsMove (approve id u) s s' p (record p { status = active; moderator_id = none }) p'
          none [] got (ground arith) (approve_move p.status (ground arith)) (λ h. refl) (λ m. refl)
          refl
  ]

  reject-IsMove :
      (reason : String)
      → reject_product id u reason s ≡ ok (p', s')
      → IsMove (reject id u reason) s s' p'
  unfolding reject_product
  reject-IsMove reason h = elim (Result-cases (get_product_row id none s)) [
    | inr (e, failed) ↦ absurd (ground arith)
    | inl (p, got) ↦
        moved-IsMove (reject id u reason) s s' p
          (record p { status = rejected; moderator_id = none }) p' none
          (("reason", str reason) ∷ []) got (ground arith) (reject_move p.status (ground arith))
          (λ h. cc) (λ m. refl) refl
  ]

-- A partial payload touches neither the status, nor the moderator, nor the owner.
pub apply_update-ok :
    (d : ProductUpdate) (p q : Product)
    → apply_update d p ≡ ok q
    → (q.status ≡ p.status) × (q.moderator_id ≡ p.moderator_id) × (q.owner_id ≡ p.owner_id)
unfolding apply_update
apply_update-ok d p q h = ground arith

update-IsMove :
    (id : ℕ) (d : ProductUpdate) (u : User) (s s' : Session) (p' : Product)
    → update_product id d u s ≡ ok (p', s')
    → IsMove (update id d u) s s' p'
unfolding update_product
update-IsMove id d u s s' p' h = elim (Result-cases (get_product_row id (some u) s)) [
  | inr (e, failed) ↦ absurd (ground arith)
  | inl (p, got) ↦ elim (Result-cases (apply_update d p)) [
    | inr (e, failed) ↦ absurd (ground arith)
    | inl (q, applied) ↦
        let (status, moderator, owner) = apply_update-ok d p q applied in
        moved-IsMove (update id d u) s s' p (edited q) p' (some u) [] got (ground arith)
          (rw (← status) (edit_move q (ground arith))) (λ h. ground arith) (λ m. ground arith)
          (ground arith)
  ]
]

-- A request of the workflow that succeeds makes a documented move of its own product, makes it
-- active only by an approval, keeps a moderator assigned exactly while the moderation is in
-- progress, keeps the owner, adds one audit entry of its actor where the status changes, and writes
-- that row and the audit trail alone.
pub handle-IsMove :
    (req : Request) (s s' : Session) (p' : Product)
    → handle req s ≡ ok (p', s')
    → IsMove req s s' p'
unfolding handle
handle-IsMove (submit id u) s s' p' h = submit-IsMove id u s s' p' h
handle-IsMove (update id d u) s s' p' h = update-IsMove id d u s s' p' h
handle-IsMove (claim id u) s s' p' h = claim-IsMove id u s s' p' h
handle-IsMove (approve id u) s s' p' h = approve-IsMove id u s s' p' h
handle-IsMove (reject id u reason) s s' p' h = reject-IsMove id u s s' p' reason h

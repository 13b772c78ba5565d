-- ===== src/Inventory/Moderation.antt =====
-- The moderation workflow as a state machine: the requests that change a product, and the moves
-- that its status may make.
pub mod Workflow
pub mod Audited
use fair_drop.Common.{ℕ, ◌≡◌, Bool, true, false, String, Option, some, none}
use fair_drop.Exceptions.{Result}
use fair_drop.Models.{
  User, Product, ProductStatus, draft, active, archived, pending_moderation, moderation_in_progress,
  rejected,
}
use fair_drop.Database.{Session, is_some}
use fair_drop.Inventory.Schemas.{ProductUpdate}
use fair_drop.Inventory.Service.{submit_for_moderation, update_product}
use fair_drop.Inventory.Admin.{
  change_status, claim_for_moderation, approve_product, reject_product, is_in_progress,
}

-- The routes that change a product that is there.
pub data Request : Type 0 where
  submit : ℕ → User → Request
  update : ℕ → ProductUpdate → User → Request
  claim : ℕ → User → Request
  approve : ℕ → User → Request
  reject : ℕ → User → String → Request

abbrev pub target : Request → ℕ
target (submit id _) = id
target (update id _ _) = id
target (claim id _) = id
target (approve id _) = id
target (reject id _ _) = id

abbrev pub actor : Request → User
actor (submit _ u) = u
actor (update _ _ u) = u
actor (claim _ u) = u
actor (approve _ u) = u
actor (reject _ u _) = u

-- The action under which the request is logged.
abbrev pub action : Request → String
action (submit _ _) = "submit_for_moderation"
action (update _ _ _) = "update"
action (claim _ _) = "claim_for_moderation"
action (approve _ _) = "approve"
action (reject _ _ _) = "reject"

unfoldable pub handle : Request → Session → Result (Product × Session)
handle (submit id u) = submit_for_moderation id u
handle (update id d u) = update_product id d u
handle (claim id u) = claim_for_moderation id u
handle (approve id u) = approve_product id u
handle (reject id u reason) = reject_product id u reason

abbrev pub is_approve : Request → Bool
is_approve (approve _ _) = true
is_approve _ = false

-- The moves of the documented workflow.
pub data Transition : ProductStatus → ProductStatus → Type 0 where
  submit_draft : Transition draft pending_moderation
  resubmit : Transition rejected pending_moderation
  start : Transition pending_moderation moderation_in_progress
  publish : Transition moderation_in_progress active
  turn_down : Transition moderation_in_progress rejected
  revise : Transition active pending_moderation
  edit_draft : Transition draft draft
  edit_rejected : Transition rejected rejected
  edit_archived : Transition archived archived

-- A moderator is assigned exactly while the moderation is in progress.
abbrev pub HasModerator : Product → Type 0
HasModerator p = is_some p.moderator_id ≡ is_in_progress p.status

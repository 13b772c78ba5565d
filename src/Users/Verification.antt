-- ===== src/Users/Verification.antt =====
-- Requests for another role: `create_verification_request` and the readers of `UserService`, and
-- `VerificationRequestAdmin.on_model_change`, the approval in the admin panel.
pub mod Roles
use fair_drop.Common.{
  ℕ, Bool, true, false, ◌&&◌, not, ◌||◌, String, Option, none, some, List, [], ◌∷◌, ◌++◌, ◌==◌, leb,
  if◌then◌else◌,
}
use fair_drop.Common.Table.{Table, get, put, select}
use fair_drop.Common.Table.Groups.{sort_desc}
use fair_drop.Exceptions.{
  Error, Result, ok, err, verification_request_already_exists, permission_denied, integrity_error,
  no_result_found, ◌>>=◌, ◌>>◌, raise_if, or_raise, scalar_one_or_none,
}
use fair_drop.Json.{Dict}
use fair_drop.Models.{User, UserRole, VerificationRequest, VerificationStatus, is_staff}
use fair_drop.Database.{Session, is_some}

abbrev pub is_open : VerificationStatus → Bool
is_open VerificationStatus.pending = true
is_open _ = false

abbrev pub is_approved : VerificationStatus → Bool
is_approved VerificationStatus.approved = true
is_approved _ = false

-- `user_id == … and status == PENDING`
abbrev pub is_open_of : ℕ → VerificationRequest → Bool
is_open_of user_id v = v.user_id == user_id && is_open v.status

abbrev pub new_request : ℕ → ℕ → UserRole → Option Dict → VerificationRequest
new_request now user_id target_role docs_url = record {
  user_id = user_id;
  target_role = target_role;
  status = VerificationStatus.pending;
  docs_url = docs_url;
  admin_feedback = none;
  created_at = now;
}

unfoldable pub create_verification_request :
    ℕ → ℕ → ℕ → UserRole → Option Dict → Session → Result (VerificationRequest × Session)
create_verification_request now id user_id target_role docs_url s = do
  found ← scalar_one_or_none (select (is_open_of user_id) s.verification_requests)
  raise_if (is_some found) verification_request_already_exists
  raise_if (is_staff target_role) permission_denied
  raise_if (is_some (get id s.verification_requests) || not (is_some (get user_id s.users)))
      integrity_error
  let v = new_request now user_id target_role docs_url
  ok (v, record s { verification_requests = s.verification_requests ++ (id, v) ∷ [] })

-- `order_by(created_at.desc())`: the newest row first.
unfoldable pub get_verification_requests : ℕ → Session → Table VerificationRequest
get_verification_requests user_id s =
    sort_desc (λ v. v.created_at) (select (λ v. v.user_id == user_id) s.verification_requests)

abbrev pub first_row : Table VerificationRequest → Option (ℕ × VerificationRequest)
first_row [] = none
first_row (v ∷ _) = some v

unfoldable pub get_latest_verification_request : ℕ → Session → Option (ℕ × VerificationRequest)
get_latest_verification_request user_id s = first_row (get_verification_requests user_id s)

-- The form's data as saved, and then `on_model_change` with the row: an approval gives the user the
-- requested role, and marks the user as verified.
unfoldable pub on_model_change :
    Option VerificationStatus → VerificationRequest → Bool → Session → Result Session
on_model_change none v is_created s = ok s
on_model_change (some status) v is_created s =
    if not is_created && is_approved status
    then (do
      u ← or_raise (get v.user_id s.users) no_result_found
      ok (record s {
        users = put v.user_id (record u { role = v.target_role; is_verified = true }) s.users;
      }))
    else ok s

-- ===== src/Media/Paths/Views.antt =====
-- Who views a private file, and what is left in the audit trail.
use fair_drop.Common.{
  ℕ, ◌≡◌, ◌≢◌, ap, inl, inr, true, String, Option, some, arith, Option-cases, str_eq_iff,
}
use fair_drop.Exceptions.{ok}
use fair_drop.Config.{Settings}
use fair_drop.Json.{Json}
use fair_drop.Models.{User, is_staff}
use fair_drop.Database.{Session, is_some}
use fair_drop.AuditLog.{log_pii_access}
use fair_drop.AuditLog.Changes.{IsLogged, log_pii_access-IsLogged}
use fair_drop.Media.Paths.{
  signed, generate_presigned_get_url, get_secure_file_path, non_empty, view_reason,
  view_private_file,
}
use fair_drop.Media.Paths.Normal.{object_key_total}

pub generate_presigned_get_url_total :
    (presign : String → String → ℕ → String) (settings : Settings) (key : String) (seconds : ℕ)
    → is_some (generate_presigned_get_url presign settings key seconds) ≡ true
unfolding generate_presigned_get_url
generate_presigned_get_url_total presign settings key seconds =
    let (key', done, e) = object_key_total settings key in
    ap (λ o. is_some (signed presign settings seconds o)) done

-- A private file is shown to staff alone, at an address that is always made; the view of a
-- document of a request for a role leaves one entry of the viewer in the audit trail, and any other
-- view leaves the session as it was.
pub view_private_file-IsLogged :
    (show : Json → String) (presign : String → String → ℕ → String) (settings : Settings)
    (target_type : String) (target_id : ℕ) (doc_key : Option String) (u : User) (s s' : Session)
    (url : Option String)
    → view_private_file show presign settings target_type target_id doc_key u s ≡ ok (url, s')
    → (is_staff u.role ≡ true)
      × (is_some url ≡ true)
      × (target_type ≡ "verification_doc"
          → IsLogged u.id target_id "verification_request" "pii_access" s s')
      × (target_type ≢ "verification_doc" → s' ≡ s)
unfolding view_private_file
view_private_file-IsLogged show presign settings target_type target_id doc_key u s s' url h =
    elim (Option-cases (non_empty (get_secure_file_path show target_type target_id doc_key s))) [
      | inl missing ↦ absurd (ground arith)
      | inr (path, found) ↦
          let made : url ≡ generate_presigned_get_url presign settings path 3600 = ground arith in
          (
            ground arith,
            rw made (generate_presigned_get_url_total presign settings path 3600),
            (λ doc.
                let logged : s'
                    ≡ log_pii_access u.id target_id "verification_request"
                        (some (view_reason doc_key)) s =
                  ground (arith, str_eq_iff target_type "verification_doc") in
                rw logged (
                  log_pii_access-IsLogged u.id target_id "verification_request"
                    (some (view_reason doc_key)) s)),
            λ other. ground (arith, str_eq_iff target_type "verification_doc"),
          )
    ]

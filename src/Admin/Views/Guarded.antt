-- ===== src/Admin/Views/Guarded.antt =====
-- Who may do what in the panel.
use fair_drop.Common.{
  ◌≡◌, refl, sym, ap, ◌∙◌, Bool, true, false, ◌||◌, Option, none, some, All, IsOneOf, one_of, arith,
}
use fair_drop.Models.{User, UserRole, is_staff}
use fair_drop.Security.{is_admin}
use fair_drop.Admin.{
  PanelRequest, is_accessible, user_admin_is_accessible, is_forbidden, is_forbidden_name,
  is_forbidden_path,
}
use fair_drop.Admin.Views.{
  Action, listing, details, create, edit, delete, PanelModel, users, audit_logs, api_keys,
  verification_requests, ModelView, register_admin_views, SqlAdmin, endpoint_of, user_admin,
  product_admin, order_admin, reservation_admin, audit_log_admin, api_key_b2b_partner_admin,
  verification_request_admin,
}

abbrev pub has_role : (UserRole → Bool) → Option User → Bool
has_role p none = false
has_role p (some u) = p u.role

-- Staff see the users, and admins alone create and edit them. Whoever is in the panel does so with
-- products, orders and reservations, moderators included. Admins alone see the audit log, use the API keys, and see
-- and edit the requests for a role. Nobody deletes anything, and nobody writes the audit log.
abbrev pub may : PanelModel → Action → Option User → Bool
may users listing u = has_role is_staff u
may users details u = has_role is_staff u
may users create u = has_role is_admin u
may users edit u = has_role is_admin u
may audit_logs listing u = has_role is_admin u
may audit_logs details u = has_role is_admin u
may audit_logs create u = false
may audit_logs edit u = false
may api_keys listing u = has_role is_admin u
may api_keys details u = has_role is_admin u
may api_keys create u = has_role is_admin u
may api_keys edit u = has_role is_admin u
may verification_requests listing u = has_role is_admin u
may verification_requests details u = has_role is_admin u
may verification_requests edit u = has_role is_admin u
may verification_requests create u = false
may m delete u = false
may m a u = true

accessible-admin : (u : Option User) → is_accessible u ≡ true → has_role is_admin u ≡ true
unfolding is_accessible
accessible-admin none h = h
accessible-admin (some u) h = h

user_accessible-staff :
    (u : Option User) (r : PanelRequest)
    → user_admin_is_accessible u r ≡ true
    → has_role is_staff u ≡ true
unfolding user_admin_is_accessible
user_accessible-staff none r h = h
user_accessible-staff (some u) r h = ground arith

user_accessible-admin :
    (u : Option User) (r : PanelRequest)
    → is_forbidden r ≡ true
    → user_admin_is_accessible u r ≡ true
    → has_role is_admin u ≡ true
unfolding user_admin_is_accessible
user_accessible-admin none r f h = h
user_accessible-admin (some u) r f h = ground arith

or_first : (a b : Bool) → a ≡ true → (a || b) ≡ true
or_first true b h = refl
or_first false b h = cc

module _ (sql_admin : SqlAdmin) where
  abbrev IsGuarded : ModelView → Type 0
  IsGuarded v =
      (a : Action) (u : Option User) (r : PanelRequest)
      → sql_admin.allowed v a u r ≡ true
      → may v.model a u ≡ true

  -- A page that a view has switched off lets nobody through.
  off : {b : Bool} → b ≡ true → b ≡ false → ⊥
  off on h = let e = sym h ∙ on in ground arith

  product-IsGuarded : IsGuarded product_admin
  product-IsGuarded listing u r t = refl
  product-IsGuarded details u r t = refl
  product-IsGuarded create u r t = refl
  product-IsGuarded edit u r t = refl
  product-IsGuarded delete u r t = absurd (off (sql_admin.allowed-delete product_admin u r t) refl)

  order-IsGuarded : IsGuarded order_admin
  order-IsGuarded listing u r t = refl
  order-IsGuarded details u r t = refl
  order-IsGuarded create u r t = refl
  order-IsGuarded edit u r t = refl
  order-IsGuarded delete u r t = absurd (off (sql_admin.allowed-delete order_admin u r t) refl)

  reservation-IsGuarded : IsGuarded reservation_admin
  reservation-IsGuarded listing u r t = refl
  reservation-IsGuarded details u r t = refl
  reservation-IsGuarded create u r t = refl
  reservation-IsGuarded edit u r t = refl
  reservation-IsGuarded delete u r t =
      absurd (off (sql_admin.allowed-delete reservation_admin u r t) refl)

  audit_log-IsGuarded : IsGuarded audit_log_admin
  audit_log-IsGuarded listing u r t =
      accessible-admin u (sql_admin.allowed-is_accessible audit_log_admin listing u r t)
  audit_log-IsGuarded details u r t =
      accessible-admin u (sql_admin.allowed-is_accessible audit_log_admin details u r t)
  audit_log-IsGuarded create u r t =
      absurd (off (sql_admin.allowed-create audit_log_admin u r t) refl)
  audit_log-IsGuarded edit u r t = absurd (off (sql_admin.allowed-edit audit_log_admin u r t) refl)
  audit_log-IsGuarded delete u r t =
      absurd (off (sql_admin.allowed-delete audit_log_admin u r t) refl)

  api_key-IsGuarded : IsGuarded api_key_b2b_partner_admin
  api_key-IsGuarded listing u r t =
      accessible-admin u (sql_admin.allowed-is_accessible api_key_b2b_partner_admin listing u r t)
  api_key-IsGuarded details u r t =
      accessible-admin u (sql_admin.allowed-is_accessible api_key_b2b_partner_admin details u r t)
  api_key-IsGuarded create u r t =
      accessible-admin u (sql_admin.allowed-is_accessible api_key_b2b_partner_admin create u r t)
  api_key-IsGuarded edit u r t =
      accessible-admin u (sql_admin.allowed-is_accessible api_key_b2b_partner_admin edit u r t)
  api_key-IsGuarded delete u r t =
      absurd (off (sql_admin.allowed-delete api_key_b2b_partner_admin u r t) refl)

  request-IsGuarded : IsGuarded verification_request_admin
  request-IsGuarded listing u r t =
      accessible-admin u (sql_admin.allowed-is_accessible verification_request_admin listing u r t)
  request-IsGuarded details u r t =
      accessible-admin u (sql_admin.allowed-is_accessible verification_request_admin details u r t)
  request-IsGuarded create u r t =
      absurd (off (sql_admin.allowed-create verification_request_admin u r t) refl)
  request-IsGuarded edit u r t =
      accessible-admin u (sql_admin.allowed-is_accessible verification_request_admin edit u r t)
  request-IsGuarded delete u r t =
      absurd (off (sql_admin.allowed-delete verification_request_admin u r t) refl)

  user_written :
      (a : Action) (u : Option User) (r : PanelRequest)
      → is_forbidden_name (endpoint_of a) ≡ true
      → sql_admin.allowed user_admin a u r ≡ true
      → has_role is_admin u ≡ true
  user_written a u r f t =
      let named = ap is_forbidden_name (sql_admin.allowed-endpoint user_admin a u r t) ∙ f in
      user_accessible-admin u r
        (or_first (is_forbidden_name r.endpoint_name)
          (is_forbidden_name r.route_name || is_forbidden_path r.path) named)
        (sql_admin.allowed-is_accessible user_admin a u r t)

  user-IsGuarded : IsGuarded user_admin
  user-IsGuarded listing u r t =
      user_accessible-staff u r (sql_admin.allowed-is_accessible user_admin listing u r t)
  user-IsGuarded details u r t =
      user_accessible-staff u r (sql_admin.allowed-is_accessible user_admin details u r t)
  user-IsGuarded create u r t = user_written create u r refl t
  user-IsGuarded edit u r t = user_written edit u r refl t
  user-IsGuarded delete u r t = absurd (off (sql_admin.allowed-delete user_admin u r t) refl)

  views-IsGuarded : All IsGuarded register_admin_views
  views-IsGuarded = (
    user-IsGuarded,
    (
      product-IsGuarded,
      (
        order-IsGuarded,
        (
          reservation-IsGuarded,
          (audit_log-IsGuarded, (api_key-IsGuarded, (request-IsGuarded, tt))),
        ),
      ),
    ),
  )

  -- A registered view lets a request through only as `may` says: nobody deletes, the audit log is
  -- read by admins and written by nobody, users are created and edited by admins, and requests for a
  -- role are created by nobody. Products, orders and reservations are open to whoever is in the panel.
  pub allowed-may :
      (v : ModelView) (a : Action) (u : Option User) (r : PanelRequest)
      → IsOneOf v register_admin_views
      → sql_admin.allowed v a u r ≡ true
      → may v.model a u ≡ true
  allowed-may v a u r one = one_of IsGuarded register_admin_views views-IsGuarded v one a u r

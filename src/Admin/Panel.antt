-- ===== src/Admin/Panel.antt =====
-- Who enters the admin panel, and what moderators reach in it.
use fair_drop.Common.{
  ℕ, ◌≡◌, ◌↔◌, ◌⊎◌, refl, ap, ◌∙◌, inl, inr, true, false, String, Option, none, some, [], ◌∷◌,
  arith,
}
use fair_drop.Common.Table.{get, IsKeyed}
use fair_drop.Exceptions.{ok, Result-cases}
use fair_drop.Models.{User, admin, moderator, is_staff}
use fair_drop.Database.{Session}
use fair_drop.Security.{check_permission, role_in, role_eq}
use fair_drop.Users.Hashing.{Hashing}
use fair_drop.Users.Accounts.{authenticate_user}
use fair_drop.Users.Accounts.Login.{authenticate_user-some}
use fair_drop.Admin.{
  Browser, admit, login, authenticate, is_accessible, PanelRequest, is_forbidden,
  user_admin_is_accessible,
}

staff_only :
    (u : User) → check_permission u (admin ∷ moderator ∷ []) false ≡ ok tt → is_staff u.role ≡ true
unfolding check_permission role_in role_eq
staff_only u h = ground arith

admit-true :
    (found : Option User) (browser browser' : Browser)
    → admit found browser ≡ ok (true, browser')
    → (u : User) × (found ≡ some u) × (is_staff u.role ≡ true) × (browser' ≡ some u.id)
admit-true none browser browser' h = cc
admit-true (some u) browser browser' h =
    elim (Result-cases (check_permission u (admin ∷ moderator ∷ []) false)) [
      | inl (done, passed) ↦ (u, refl, staff_only u passed, ground arith)
      | inr (e, failed) ↦ absurd (ground arith)
    ]

-- Where the users are stored once, each under its own id, a login that lets somebody in is of an
-- admin or a moderator with that email and password, and the browser is taken for that user's
-- afterwards.
pub authenticate-login :
    (h : Hashing) (email password : Option String) (s : Session) (browser browser' : Browser)
    → IsKeyed s.users
    → ((i : ℕ) (u : User) → get i s.users ≡ some u → u.id ≡ i)
    → login h email password s browser ≡ ok (true, browser')
    → (e : String) × (p : String) × (u : User) × (email ≡ some e)
      × (password ≡ some p)
      × (authenticate_user h e p s ≡ ok (some u))
      × (is_staff u.role ≡ true)
      × (authenticate browser' s ≡ (true, some u))
unfolding login authenticate
authenticate-login h none password s browser browser' keyed ids done = absurd (ground arith)
authenticate-login h (some e) none s browser browser' keyed ids done = absurd (ground arith)
authenticate-login h (some e) (some p) s browser browser' keyed ids done =
    elim (Result-cases (authenticate_user h e p s)) [
      | inr (e', failed) ↦ absurd (ground arith)
      | inl (found, got) ↦
          let (u, same, staff, set) = admit-true found browser browser' (ground arith) in
          let known = got ∙ ap ok same in
          let (i, rows, named, at) = authenticate_user-some h e p s u keyed known in
          let here : get u.id s.users ≡ some u = ap (λ k. get k s.users) (ids i u at) ∙ at in
          (e, p, u, refl, refl, known, staff, rw set (rw here (rw staff refl)))
    ]

-- The views of requests for a role, of the audit log and of API keys are reached by admins alone;
-- the view of users by admins, and by moderators where neither the name nor the path of the request
-- creates, edits or deletes.
pub panel_access :
    (u : User) (r : PanelRequest)
    → ((is_accessible (some u) ≡ true) ↔ (u.role ≡ admin))
      × ((user_admin_is_accessible (some u) r ≡ true)
          ↔ ((u.role ≡ admin) ⊎ ((u.role ≡ moderator) × (is_forbidden r ≡ false))))
unfolding is_accessible user_admin_is_accessible
panel_access u r = ground arith

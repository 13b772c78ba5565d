-- ===== src/Users.antt =====
-- app/services/user: registration, login, refresh tokens, API keys of B2B partners, and requests for
-- another role, with the approval in the admin panel (app/core/admin/admin.py).
pub mod Hashing
pub mod Accounts
pub mod Tokens
pub mod ApiKeys
pub mod Verification
pub mod Access

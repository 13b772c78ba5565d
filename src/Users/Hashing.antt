-- ===== src/Users/Hashing.antt =====
-- Password hashing (app/core/hashing.py calls bcrypt): a parameter of the model.
use fair_drop.Common.{ℕ, ◌≡◌, Bool, true, String}

-- bcrypt draws a salt; what was hashed verifies against its hash, whatever the salt.
pub record Hashing : Type 0 where
  pub hash : ℕ → String → String
  pub verify : String → String → Bool
  pub verify-hash : (salt : ℕ) (text : String) → verify text (hash salt text) ≡ true

-- ===== src/Routes/Users/Registered.antt =====
-- The route of registration, and the logins after it.
use fair_drop.Users.Hashing.{Hashing}

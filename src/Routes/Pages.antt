-- ===== src/Routes/Pages.antt =====
-- The list of products for buyers.
use fair_drop.Common.{ℕ, ◌≡◌, String}
use fair_drop.Common.Table.{Table}
use fair_drop.Config.{Settings}
use fair_drop.Json.{str, Dict}
use fair_drop.Models.{Product, active}
use fair_drop.AuditLog.{dict_get}

abbrev IsActiveRow : ℕ × Product → Type 0
IsActiveRow row = row.1.status ≡ active

module _ (presign : String → String → ℕ → String) (settings : Settings) where
  abbrev pub ShowsActive : Dict → Type 0
  ShowsActive view = dict_get "status" view ≡ str "ACTIVE"

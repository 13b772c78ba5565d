-- ===== src/System/Sweeps.antt =====
-- The sweep of the periodic task as a history of its own.
use fair_drop.Common.Table.{Table}

-- ===== src/Examples/Figures.antt =====
-- The lists and figures of the sample shop's seller.
use fair_drop.Common.{none, All}
use fair_drop.Sellers
use fair_drop.Sellers.Shown.{IsShown, get_my_orders-IsShown}
use fair_drop.Examples.Sample.{shop}

get_my_orders-IsShown_example : All (IsShown 2 shop) (Sellers.get_my_orders 2 none shop)
get_my_orders-IsShown_example = get_my_orders-IsShown 2 none shop

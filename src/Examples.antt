-- ===== src/Examples.antt =====
-- A small shop, and the theorems at concrete inputs.
mod Schema
mod Upgrades
mod Sample
mod Lifecycle
mod Catalogue
mod Purchases
mod Registration
mod Access
mod Figures
mod Images
mod Runs
mod Limits
mod Files
mod Panel
mod Pages
mod Requests
mod Overlap
mod Settlements
mod Partners
mod Api

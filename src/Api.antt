-- ===== src/Api.antt =====
-- The custom resources of api/v1, a module for each file.
pub mod Common
pub mod Node
pub mod Farmer
pub mod Wallet
pub mod Harvester
pub mod Ca

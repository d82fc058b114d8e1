-- ===== src/Tests.antt =====
-- Tests by evaluation, and each theorem at a concrete input that meets its hypotheses.
pub mod Sample
mod Paths
mod Listings
mod Lookups
mod Caches
mod Remote
pub mod Sql
mod Wired
mod Races
mod Requests
mod Bags
mod Startup

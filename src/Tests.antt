-- ===== src/Tests.antt =====
-- Runs over the API server in memory, and the theorems at concrete data.
mod Samples
mod Maps
mod Reconciling
mod Repeating
mod Setters
mod Copies
mod Starting
mod Documents
mod Schemes
mod Doubles

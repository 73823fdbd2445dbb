-- ===== src/Controllers.antt =====
-- internal/controllers/device_config_reconciler.go: the reconciler of DeviceConfigs.
-- A method may change the world, through the client, and the DeviceConfig behind its pointer.
-- Logging is left out.
pub mod Objects
pub mod Reconcile
pub mod Helper
pub mod Steps
pub mod FirstError
pub mod Config
pub mod Requests
pub mod FinalizeOrder
pub mod Setup
pub mod Stored
pub mod Guard
pub mod Applied
pub mod Converge
pub mod FinalizeSteps
pub mod Desired
pub mod Succeeds
pub mod First
pub mod Handled
pub mod Fixed
pub mod Fixes
pub mod Twice
pub mod Steady
pub mod Progress
pub mod Branches
pub mod Moves
pub mod Retries
pub mod Overwrites
pub mod Names
pub mod ReconcileOrder
pub mod Reach
pub mod Shared
pub mod Interleaved

-- ===== src/Mocks.antt =====
-- The mocks that mockgen made, of internal/client/mock_client.go and of the mock_*.go files of the
-- other packages.
pub mod Gomock
pub mod Doubles
pub mod Client
pub mod StatusWriter
pub mod Helper
pub mod Scheduler
pub mod Module
pub mod Metrics
pub mod Calls
pub mod Kept
pub mod Script
pub mod Links
pub mod Memory
pub mod Reconciling

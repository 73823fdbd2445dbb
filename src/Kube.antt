-- ===== src/Kube.antt =====
-- The libraries that the operator calls and whose code is not in the repository, as records of
-- operations: pure helpers (`Util`) and the API client (`Client`). Nothing is assumed of them
-- here; the theorems that need documented behaviour name it as a hypothesis.
mod Defs
pub mod Lawful
pub mod Traced
pub mod Interleaved
pub mod Memory
unfoldable pub use Defs.*

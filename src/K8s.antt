-- ===== src/K8s.antt =====
-- The Kubernetes and KMM types that the operator fills in, as records with the fields that its
-- code names. A field that no code of the operator names is left out: in a composite literal it
-- has its zero value, and an assignment to another field leaves it alone.
mod Meta
mod Pods
pub mod Selectors
pub use Meta.*
pub use Pods.*

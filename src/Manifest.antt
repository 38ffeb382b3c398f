-- ===== src/Manifest.antt =====
-- krake/krake/controller/kubernetes: the manifests of an application as the Kubernetes
-- application controller keeps them, from the observer schema to the difference that it applies.
pub mod Results
pub mod Values
pub mod Names
pub mod Resources
pub mod Schema
pub mod Observed
pub mod Applied
pub mod Delta
pub mod Reconciled
mod Examples

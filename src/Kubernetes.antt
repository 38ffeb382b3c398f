-- ===== src/Kubernetes.antt =====
-- krake/krake/controller/kubernetes/application/application.py: the controller that creates,
-- updates, migrates, shuts down and deletes the Kubernetes resources of applications.
pub mod Tasks
pub mod Applications
pub mod Services
pub mod Manifests
pub mod Deletion
pub mod Reconciliation
mod Examples

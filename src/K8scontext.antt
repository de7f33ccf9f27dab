-- ===== src/K8scontext.antt =====
-- pkg/k8scontext: the view of the cluster that the controller has.
pub mod Secretstore
pub mod Handlers
pub mod Listing
pub mod Status

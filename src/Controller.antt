-- ===== src/Controller.antt =====
-- pkg/controller: what the controller does with the ingresses before it builds a configuration.
pub mod Prune
pub mod Json
pub mod ShouldProcess
pub mod MutateAks
pub mod MutateAppGateway

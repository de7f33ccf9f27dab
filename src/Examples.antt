-- ===== src/Examples.antt =====
-- A small gateway with one prohibited target, and what the theorems of the other modules say of it.
pub mod Samples
pub mod Brownfield
pub mod Merging
pub mod Appgw
pub mod Utils
pub mod Worker
pub mod K8s
pub mod Caches
pub mod Azure
pub mod Controller
pub mod Listeners
pub mod Routing
pub mod Build
pub mod Served

-- ===== src/Appgw.antt =====
-- pkg/appgw: building the gateway configuration.
pub mod Identifier
pub mod Names
pub mod Keys
pub mod Listeners
pub mod Frontend
pub mod Backends
pub mod Probes
pub mod Settings
pub mod Pools
pub mod Grouping
pub mod PathMaps
pub mod Routing
pub mod Build
pub mod Certificates
pub mod Collections
pub mod Validators

-- ===== src/Brownfield.antt =====
-- pkg/brownfield: what of an existing gateway configuration the controller keeps.
pub mod Targets
pub mod Existing
pub mod Buckets
pub mod RuleTargets
pub mod Blacklisted
pub mod HttpSettings
pub mod Redirects
pub mod Merge
pub mod MergeRules
pub mod Ingress

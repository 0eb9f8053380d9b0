-- ===== src/Router.antt =====
-- The router that leads appliances to this server: router/config-store.ts,
-- router/dnat-reconciler.ts and bridge/policy.ts.
pub mod Store
pub mod Reconciler
pub mod Policy

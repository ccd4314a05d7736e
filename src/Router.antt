-- ===== src/Router.antt =====
-- client/core/router.py: where a connection goes, and what the router remembers of earlier ones.
pub mod Caches
pub mod Memory
pub mod Routing
pub mod Decision
pub mod Opening
pub mod Counters
mod Tests

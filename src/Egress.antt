-- ===== src/Egress.antt =====
-- internal/domain/egress and internal/adapters/egress: the proxy for the application's outgoing
-- requests.
pub mod Route
pub mod Bodies
pub mod Resolver
pub mod Cache
pub mod CacheLaws
pub mod Breakers
pub mod Retry
pub mod Attempts
pub mod Proxy
pub mod Handler
pub mod Dns
pub mod Ssrf
pub mod Guards
pub mod Replies
pub mod Validation
pub mod Probes
mod Tests

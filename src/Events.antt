-- ===== src/Events.antt =====
-- internal/adapters/log: where the structured events of the program go.
pub mod RingBuffer
pub mod Contents
pub mod Latest
pub mod Queries
pub mod Pages
mod Tests

-- ===== src/Cache.antt =====
-- services/cache and utils/single-flight.service.ts: the cache and the sharing of pending work.
pub mod Flights
pub mod Sharing
pub mod Memory
pub mod Recency
pub mod Service
pub mod Answers
pub mod Loading
mod Tests

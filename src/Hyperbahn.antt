-- ===== src/Hyperbahn.antt =====
-- The Hyperbahn routing tier (hyperbahn/): rate limiting, circuit breaking and exit nodes.
pub mod EgressNodes
pub mod States
pub mod Circuits
pub mod RateCounter
pub mod RateLimiter

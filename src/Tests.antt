-- ===== src/Tests.antt =====
-- Examples.
pub mod Config
pub mod Data
pub mod Exchange
pub mod Lifecycle
pub mod Live
pub mod Opening
pub mod Positions
pub mod Runtime
pub mod Sessions
pub mod Persisted
pub mod Stored
pub mod Stores
pub mod Traces
pub mod Strategy
pub mod Trading

-- ===== src/Strategy.antt =====
-- internal/strategy: the estimate of a funding arbitrage between two books.
pub mod Depth
pub mod Ident
pub mod Estimate

-- ===== src/State.antt =====
-- internal/state: positions and the log of opportunities. The locks make each operation one step.
pub mod Positions
pub mod Opportunities

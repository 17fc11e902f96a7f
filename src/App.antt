-- ===== src/App.antt =====
-- internal/app: the configuration, the scanner and the runtime that drives it.
pub mod Config
pub mod Scanner
pub mod Runtime

-- ===== src/Base/Num.antt =====
-- `f64` as an interface, and numbers that run.
mod Defs
pub mod Fixed
unfoldable pub use Defs.*

-- ===== src/Time.antt =====
-- Instants and the wall clock, as the scheduler and the daemon read them from `chrono`.
mod Clock
mod Utc
unfoldable pub use Clock.*
pub use Utc.*

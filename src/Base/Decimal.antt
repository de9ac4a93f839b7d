-- ===== src/Base/Decimal.antt =====
-- Decimal numbers in texts: fmt.Sprintf("%d") of a non-negative number and fmt.Sscanf("%d").
mod Defs
mod RoundTrip
unfoldable pub use Defs.*
pub use RoundTrip.*

-- ===== src/Base.antt =====
-- Go's errors, results and effects, as the modules below use them.
mod Errors
mod Effects
unfoldable pub use Errors.*
pub use Effects.*

-- ===== src/Api.antt =====
-- The desire documents: api/kubeapplier. A `time.Time` is its instant, a number of nanoseconds, and
-- 0 is the zero time; an `int64` is its bit pattern; a string type such as `ApplyDesireType` is its
-- string; a pointer is an `Option`. Values are never shared, so `DeepCopy` is the identity.
mod Types
mod Accessors
unfoldable pub use Types.*
unfoldable pub use Accessors.*

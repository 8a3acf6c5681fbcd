-- ===== src/Database.antt =====
-- internal/database: the DynamoDB-backed access to specs and status documents.
mod RawExtension
pub mod Items
pub mod Crud
pub mod Client
pub mod FakeCrud
pub mod Listers
pub mod Informers
unfoldable pub use RawExtension.*
unfoldable pub use Items.*

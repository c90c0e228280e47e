-- ===== src/Database.antt =====
-- The database: the interface of the repositories, and an implementation of it by lists of rows.
mod Interface
mod Batch
mod BatchLaws
mod Saved
mod Lookup
mod ListTable
pub use Interface.*
unfoldable pub use Batch.{insert_all, save_all, remove_all}
pub use BatchLaws.*
pub use Lookup.*
pub use Saved.*
unfoldable pub use ListTable.{list_repository}

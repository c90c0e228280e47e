-- ===== src/Redis.antt =====
-- Redis, as far as the source uses it: the interface, and an implementation by a table of entries.
mod Interface
mod Memory
pub use Interface.*
unfoldable pub use Memory.{memory}

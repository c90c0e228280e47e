-- ===== src/Entities.antt =====
-- backend/src/entities.ts: the rows of the tables. Identifiers are UUIDs, which the program only
-- generates and compares: a number stands for each. Instants are milliseconds; decimals of scale 0
-- are numbers. `?` columns are options.
mod Enums
mod Rows
mod Constraints
pub use Enums.*
pub use Rows.*
pub use Constraints.*

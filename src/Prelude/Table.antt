-- ===== src/Prelude/Table.antt =====
-- Database tables as lists of rows: the queries and updates, and their laws.
mod Rows
mod Counts
mod Searches
mod Each
pub use Rows.*
pub use Counts.*
pub use Searches.*
pub use Each.*

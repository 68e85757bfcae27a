-- ===== src/Report.antt =====
-- src/query.h, src/query.cc: the statistics of one query type (`Query_type_report`), and the
-- report of a client (`Query_report`), a map from type names to pointers to them.
mod Tests
pub mod Types
pub mod Codec
pub mod Message
pub mod Send
pub mod Stats
pub mod Indexed
pub mod Print
pub mod Merge
pub mod Filled
unfoldable pub use Types.*
pub use Codec.*

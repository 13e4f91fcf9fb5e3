-- ===== src/Taxonomy.antt =====
-- backend/src/mouseion/services/taxonomy.py: the tables, the lookups, the walks and the edits of
-- the topic hierarchy, each in a module of its own, with the proofs in modules beside them.
pub mod Store
pub mod Lookup
pub mod Sorting
pub mod Walk
pub mod Create
pub mod Edit
pub mod Valid
pub mod Decided
pub mod Applied
pub mod Deleted
pub mod Renamed
pub mod Tagged
mod Tests

-- ===== src/Store.antt =====
-- The key-value stores (src/persista/store/).
pub mod Types
pub mod Validation
pub mod Normalize
pub mod Names
pub mod Spec
pub mod Conflicts
pub mod Batching
pub mod Base
pub mod Writes
pub mod Engine
pub mod TypedRows
pub mod Sqlite
pub mod Duckdb
pub mod File
pub mod Postgres
pub mod Lmdb
pub mod Redis
pub mod InMemory
pub mod Null
pub mod Keys
pub mod Uri
pub mod Registry

-- ===== src/Repository.antt =====
-- internal/repository: what the services keep in Redis and in the database.
pub mod Cache
pub mod Table
pub mod Rows
pub mod User
pub mod Database
pub mod Changes
pub mod Server
pub mod Dst
pub mod Task
pub mod Transaction

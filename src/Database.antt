-- ===== src/Database.antt =====
-- internal/database: the tables, and the statements of internal/database/db.
pub mod Models
pub mod Result
pub mod Auth
pub mod Match
pub mod Chat
pub mod Profile
pub mod Photos
pub mod Mutual
pub mod Talks
pub mod Discovery

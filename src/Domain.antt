-- ===== src/Domain.antt =====
-- The domain package: enums, texts and JSON values, and the rows of the tables.
pub mod Enums
pub mod Json
pub mod Models

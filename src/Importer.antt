-- ===== src/Importer.antt =====
-- internal/importer: scenarios from what other tools write.
pub mod Splitting
pub mod Curl

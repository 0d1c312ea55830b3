-- ===== src/Pico/CollectSession.antt =====
-- A call after garbage collection: `Database::run_garbage_collection` of crates/pico/src/database.rs.

-- ===== src/Store.antt =====
-- `SessionKvStore` (src/server/llm/session_kv_store.cpp): parked sessions as files.
pub mod Disk
pub mod Names
pub mod Header
pub mod Files
pub mod Expiry

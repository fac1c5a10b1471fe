-- ===== src/Engine.antt =====
-- The session layer of the engine: src/server/llm/llm_engine.cpp.
pub mod KvStore
pub mod Parking
pub mod Session
pub mod Clone

-- ===== src/Park.antt =====
-- Parked sessions: what RAM admits, what leaves it, and what is deleted from disk.
-- src/server/llm/session_park.hpp and session_park.cpp.
pub mod Snapshot
pub mod Budget
pub mod Admit
pub mod DiskGc
pub mod Memory

-- ===== src/Kv.antt =====
-- The live KV sequence: how much of it a new prompt can reuse, and how its tail is dropped.
-- src/common/span_prefix.hpp, src/server/llm/token_offset.hpp and kv_match.hpp, kv_trim.cpp.
pub mod Prefix
pub mod Trim

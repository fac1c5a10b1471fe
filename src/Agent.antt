-- ===== src/Agent.antt =====
-- What a model answers, taken apart (src/server/agent/response_parse.cpp).
pub mod Think
pub mod Tags
pub mod Actions

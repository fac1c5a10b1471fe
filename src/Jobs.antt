-- ===== src/Jobs.antt =====
-- The job runner: src/server/jobs/token_buffer.hpp, jobs.hpp and jobs.cpp.
pub mod TokenBuffer
pub mod Tasks
pub mod Runner
pub mod Prompt

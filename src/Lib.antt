-- ===== src/Lib.antt =====
-- Verification library of llama-onprem-server, a server that runs one llama.cpp context for many
-- chat sessions and streams what it generates.
--
-- The parts of the program and how they interact. The engine (src/server/llm/llm_engine.cpp) holds
-- one live KV sequence. A new prompt reuses the prefix that it shares with that sequence, and the
-- rest is trimmed. When another session becomes active, the live one is parked: in RAM within a
-- byte budget, with the oldest sessions spilled to files, or straight to a file. Files are deleted
-- by age when the directory is too large. What the model generates leaves as whole UTF-8 characters
-- through a buffer between the worker thread and the request thread. A model may call tools; the
-- one that edits files applies a unified diff and answers with the diff of what it did.
-- A whole answer is taken apart into reasoning, tool calls, a question and the text that is shown, and
-- the results of tools are cut short in the history of a session.
--
-- Which file models what:
--   Prelude         shared names; lists measured by native numbers, bytes, machine integers
--   Kv/Prefix       common/span_prefix.hpp and server/llm/token_offset.hpp
--   Kv/Trim         server/llm/kv_match.hpp and kv_trim.cpp, over llama.cpp's memory as a parameter
--   Park/Snapshot   SessionSnapshot and parked_session_bytes of server/llm/session_park.cpp
--   Park/Budget     the two loops that plan_memory_admit and plan_session_disk_gc share
--   Park/Admit      plan_memory_admit
--   Park/DiskGc     plan_session_disk_gc
--   Park/Memory     the class SessionMemory, one function for each method
--   Store/Disk      a directory of files, with what can fail as an argument of each call
--   Store/Names     valid_id and the file names of server/llm/session_kv_store.cpp
--   Store/Header    the header of a session file, written and read
--   Store/Files     save, save_captured, load, token_count, copy and remove of SessionKvStore
--   Store/Expiry    trim_expired of SessionKvStore
--   Text/Utf8       server/llm/utf8_stream.hpp
--   Jobs/TokenBuffer  server/jobs/token_buffer.hpp
--   Engine/KvStore  what the engine uses of the store of files, as an interface, and Store/Files
--                   behind it
--   Engine/Parking  store_snapshot and flush_parked_sessions of server/llm/llm_engine.cpp
--   Engine/Session  the live session: trim_kv_to, capture, park, unpark, activate, release
--   Engine/Clone    clone_session and session_token_count
--   Jobs/Tasks      Task of server/jobs/jobs.hpp and JobState of api/models.hpp
--   Jobs/Runner     Jobs of server/jobs/jobs.cpp: the queue, cancel, the worker, as steps of threads
--   Jobs/Prompt     the folding of system messages in the worker loop of server/jobs/jobs.cpp
--   Edit            the tool edit_file of common/tools/tool_edit_file.cpp: its data and its errors
--   Edit/Lines      split_lines, join_lines, patch_lines
--   Edit/Header     read_int, parse_hunk_header, header_path, same_target
--   Edit/Parse      parse_patch
--   Edit/Match      old_side, new_side, lines_match, locate_hunk, ranges_overlap
--   Edit/Spans      the loop of edit_file over the hunks, and the one that applies the spans
--   Edit/Diff       format_diff, with std::to_string in Prelude/Decimal
--   Edit/File       write_atomic and edit_file
--   Devstral        common/devstral_call.hpp: where a tool call of a Devstral model ends
--   History         server/sessions/tool_history.cpp: the tags of a tool's result in a session's
--                   history, and how long results are cut down
--   Agent/Think     split_thinking_channel of server/agent/response_parse.cpp
--   Agent/Tags      extract_tag_body and strip_special_blocks of the same file
--   Agent/Actions   parse_tool_json_segment and parse_assistant_actions of the same file, over the
--                   JSON library and the model adapter as parameters
--   Tests           runs on concrete inputs, and the theorems at inputs that meet their hypotheses
--
-- How it is modelled. A method is a function from the old state to the new one and its result.
-- Strings are lists of bytes, tokens are the bit patterns of int32_t. uint64_t sums saturate as the
-- code makes them saturate; sizes in memory are not bounded otherwise. Loops run on the list they
-- walk or on the number of rounds that are left, so no fuel can run out. A mutex makes each method
-- one step, and a concurrent execution is a sequence of such steps. Time points of files count
-- nanoseconds from the smallest one; the largest age of a file is the bit pattern of an int64_t,
-- whose overflow wraps. std::ranges::sort is an insertion sort by the same comparison. The machine
-- is little-endian.
--
-- edit_file works on a function from paths to contents, with the calls that fail as an argument, and
-- its loops over a text have the length of the text for fuel, of which each round uses one for at
-- least one byte. A number of a patch is the bit pattern of an int of 32 bits, whose overflow wraps;
-- the lines of a file are counted by natural numbers. Messages are the cases of a data type. The
-- loops of History and Agent over a text have its length for fuel in the same way. JSON values are
-- those of a parameter, Json, and the syntax of a model's tool calls is a function that stands for the ModelAdapter.
--
-- The engine's context and llama.cpp's calls on it are the parameter Host, and Faithful says what is
-- relied on of them. The store of files is the interface KvStore, with two laws, and
-- Engine/KvStore.session_files is Store/Files behind it. That an allocation throws is left out.
--
-- What is not modelled: llama.cpp (a parameter where its results matter), the library behind
-- JSON, HTTP, process input and output, and the parts that the components' list names as such.
pub mod Prelude
pub mod Kv
pub mod Park
pub mod Text
pub mod History
pub mod Jobs
pub mod Tests
pub mod Agent
pub mod Store
pub mod Devstral
pub mod Edit
pub mod Engine

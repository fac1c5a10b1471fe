-- ===== src/Tests.antt =====
-- Runs of the modelled code on concrete inputs, and its theorems at inputs that meet their
-- hypotheses.
mod Kv
mod Park
mod Text
mod Store
mod Edit
mod Engine
mod Session
mod Jobs
mod Runner
mod Devstral
mod History
mod Agent
mod Tags
mod Actions
mod Prompt

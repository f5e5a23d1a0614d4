-- ===== src/Agent/Actions.antt =====
-- internal/agent/server.go: execute and what it calls. An action is a run against the operating
-- system: the effects that it has, in order, and its result. What the system and the standard
-- library answer is the record Os.
pub mod Effects
pub mod AtomicWrite
pub mod Validate
pub mod Quote
pub mod Schedule
pub mod Dispatch

-- ===== src/Loop.antt =====
-- loop.py: the agent loop, its state, and one step of it.
pub mod Payload
pub mod State
pub mod Lift
pub mod Step
pub mod Protocol
pub mod Keeps
pub mod Invariant
pub mod Confinement
pub mod Trace
pub mod Measure
pub mod Count
pub mod Tokens
pub mod Dialogue
pub mod Replay
pub mod Latency
pub mod Answers
pub mod First
pub mod Assistant
pub mod Cost
pub mod Numbering
pub mod Shapes
pub mod Told
pub mod Durable
pub mod Jsonl
pub mod Run

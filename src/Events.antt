-- ===== src/Events.antt =====
-- events.py: the event schema and the writer of `events.jsonl`.
pub mod Schema
pub mod Shape
pub mod Writer
pub mod Reader
pub mod Log

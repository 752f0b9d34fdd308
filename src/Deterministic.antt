-- ===== src/Deterministic.antt =====
-- deterministic.py: the clocks and random sources that a run reads, the machine's own or recorded.
pub mod Clock
pub mod Rng

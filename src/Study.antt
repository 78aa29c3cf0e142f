-- ===== src/Study.antt =====
-- benchmarks/: the controlled study of the response modes.
pub mod Pool
pub mod Observations
pub mod Rotation

-- ===== src/Horizon.antt =====
-- crates/interpreter/src/observation.rs and the blur types of value.rs: what an evaluation that
-- runs out of its budget answers, and the trace of an answer.
pub mod Bottom
pub mod Blur
pub mod RecordSet
pub mod Observation
pub mod Meter
pub mod Trace
mod Tests

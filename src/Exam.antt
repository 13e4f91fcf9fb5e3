-- ===== src/Exam.antt =====
-- backend/src/mouseion/services/examiner.py: the oral exam on a paper, as a state machine over the
-- stored sessions.
pub mod Schema
pub mod Answer
pub mod Session
pub mod Ground
pub mod Turns
pub mod Advance
mod Tests

-- ===== src/Stream.antt =====
-- stream-complexity: the batch arm of the brute-force detection, from the corpus to the gate.
pub mod Corpus
pub mod Truth
pub mod Land
pub mod Landed
pub mod Batch
pub mod World
pub mod Once
pub mod Windows
pub mod Candidates
pub mod Emission
pub mod Prefix
pub mod Answers
pub mod Rounds
pub mod Arm
pub mod Compare
pub mod Gate
pub mod Equal
pub mod Opened
mod Tests

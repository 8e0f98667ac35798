-- ===== src/PipelineFidelity.antt =====
-- pipeline-normalization-fidelity: the scorer of a pipeline tool's output.
pub mod Events
pub mod Reference
pub mod Writes
pub mod Lands
pub mod Values
pub mod Score
pub mod Sources
pub mod MergedSchema
pub mod Bounds
mod Tests
mod ScoreTests

-- ===== src/ContextGraph.antt =====
-- security-context-graph: the read-only server of the graph.
pub mod Graph
pub mod Index
pub mod Tools
pub mod Coverage
pub mod Resolved
pub mod Answers
pub mod Mirror
pub mod Counts
pub mod Paths
pub mod Routes
pub mod Found
pub mod Complete
pub mod Sound
pub mod Ranked
mod Tests
mod ToolTests

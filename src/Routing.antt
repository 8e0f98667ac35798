-- ===== src/Routing.antt =====
-- deterministic-routing-sim: rules that route a query to an engine, and their score.
pub mod Winners
pub mod Dates
pub mod Router
pub mod Score
pub mod Safe
pub mod Totals
mod Tests

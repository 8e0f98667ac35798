-- ===== src/SemanticQuery.antt =====
-- ocsf-semantic-query: the scorer that the arms of the comparison share.
pub mod Numbers
pub mod Scoring
pub mod Longer
mod Tests

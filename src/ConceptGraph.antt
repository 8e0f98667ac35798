-- ===== src/ConceptGraph.antt =====
-- security-context-graph: the build of the concept graph from its parsed sources.
pub mod Ontology
pub mod Descendants
pub mod Scaffold
pub mod FieldHop
pub mod EventHop
pub mod WallHop
pub mod MitigationHop
pub mod SkosHop
pub mod ScfHop
pub mod Reconcile
pub mod Main
pub mod Grows
mod SpineGrows
mod WallGrows
mod ControlGrows
pub mod Built
pub mod Figures
pub mod Ends
pub mod SkosCounts
pub mod Reach
mod Tests
pub mod Kids
pub mod Reached

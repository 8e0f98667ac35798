-- ===== src/MapFidelity.antt =====
-- ocsf-mapping-fidelity/map_fidelity.py: the field-mapping fidelity scorer.
pub mod Schema
pub mod Walks
pub mod Validate
pub mod Valid
pub mod Score
pub mod Totals
pub mod Accounting
pub mod Detections
pub mod Survival
mod Tests

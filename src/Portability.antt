-- ===== src/Portability.antt =====
-- sigma-portability: structural checks of translated correlation rules.
pub mod Fidelity
pub mod Fractions
mod Tests

-- ===== src/Processes.antt =====
-- backend/ttop_backend/processes.py: sampling, normalizing and sorting processes.
pub mod Entry
pub mod Normalize
pub mod Order
pub mod Sampler
pub mod Tests

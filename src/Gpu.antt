-- ===== src/Gpu.antt =====
-- backend/ttop_backend/gpu: the bounded GPU values, and the NVIDIA provider.
pub mod Base
pub mod Nvidia
pub mod Tests

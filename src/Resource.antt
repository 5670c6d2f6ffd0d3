-- ===== src/Resource.antt =====
-- internal/resourceguard and internal/termination: the allocation budget of one extraction stage.
pub mod Memory
pub mod Table

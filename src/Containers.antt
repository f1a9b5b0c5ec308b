-- ===== src/Containers.antt =====
-- std::set and std::map, as the broadcast layers use them.
pub mod Set
pub mod Map

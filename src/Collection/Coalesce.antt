-- ===== src/Collection/Coalesce.antt =====
-- dx_collection_coalesce keeps the contexts in use, in order: the loops, from the inside out.
pub mod Seek
pub mod Refill
pub mod State
pub mod Round
pub mod Entry
pub mod Step
pub mod Total

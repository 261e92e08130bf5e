-- ===== src/Tools/Offered.antt =====
-- The tools that a run offers are the ones that its calls reach.
pub mod Counts
pub mod Offers
pub mod Resolves

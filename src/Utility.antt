-- ===== src/Utility.antt =====
-- The helpers of aionetiface/utility/utils.py that the protocols rest on.
pub mod Consensus
pub mod Helpers
pub mod Buffers
pub mod Ranges
pub mod Search
mod Runs

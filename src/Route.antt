-- ===== src/Route.antt =====
-- Routes and their pools, of aionetiface/nic/route.
pub mod Pool
pub mod Runs

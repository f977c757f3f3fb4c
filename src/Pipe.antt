-- ===== src/Pipe.antt =====
-- The messaging side of aionetiface/net/pipe.
pub mod Client
pub mod Runs
pub mod Accepting
pub mod Events

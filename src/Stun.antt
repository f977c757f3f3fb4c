-- ===== src/Stun.antt =====
-- The STUN client of aionetiface/protocol/stun: addresses in attributes, messages, and the loop
-- over the attributes of a reply.
pub mod Address
pub mod Message
pub mod Proto
pub mod Runs

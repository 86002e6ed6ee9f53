-- ===== src/Actor.antt =====
-- header/actor-zeta/actor/cooperative_actor.hpp: the state word, and the protocol by which senders,
-- workers and the destructor share an actor.
pub mod StateWord
pub mod Protocol
pub mod Backoff
pub mod Resume
pub mod Spawn

-- ===== src/Queue.antt =====
-- header/actor-zeta/detail/queue: the intrusive queues, over a heap of `next` pointers.
mod Tests
pub mod Links
pub mod LinkedList
pub mod LifoInbox
pub mod Frames

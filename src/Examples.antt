-- ===== src/Examples.antt =====
-- Programs of the directory examples, which use the library.
pub mod Balancer
pub mod Supervisor
mod Tests

-- ===== src/Tests.antt =====
-- Runs of the model at concrete inputs, with stand-ins for Redis, the network and the encodings.
pub mod Collisions
pub mod Instances
pub mod Links
pub mod Peers
pub mod Reused
pub mod Starts
pub mod Maps
pub mod Queues
pub mod Reached
pub mod Requests
pub mod Service

-- ===== src/Nodes.antt =====
-- The package nodes: other instances of the service and the batches sent to them.
pub mod Aggregator
pub mod Node
pub mod NodeHub

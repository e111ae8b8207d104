-- ===== src/Queue.antt =====
-- gateway/src/queue: the order in which jobs go to the worker pools, and the pool that each goes to.
pub mod Fair
pub mod Routing

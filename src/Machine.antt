-- ===== src/Machine.antt =====
-- internal/machine: the lifecycle of the guest account on a lab machine, over its local files.
pub mod State
pub mod Runtime
pub mod Outbox
pub mod Delivery
pub mod Account
pub mod Dispatch
pub mod Heartbeat
pub mod System
pub mod Session

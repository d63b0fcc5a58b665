-- ===== src/Examples.antt =====
-- Concrete machines and inputs, on which the theorems are applied and the model is run.
pub mod Lab
pub mod Reducing
pub mod Overflowing
pub mod Failing
pub mod Streams
pub mod Rounds
pub mod Widening
pub mod Tickets
pub mod Alarms
pub mod Schedule
mod Racing
pub mod Finding
pub mod CommandLine
pub mod Queueing
pub mod Directory
pub mod Jobs
mod Sharing

-- ===== src/Health.antt =====
-- include/resilientdds/health_monitor.hpp and src/health_monitor.cpp: the operational state of each
-- source, and its laws.
pub mod State
pub mod Rules
pub mod Monitor
pub mod Events
pub mod Invariant
pub mod Safety
pub mod Recovery
pub mod Faults
mod Examples

-- ===== src/Transport.antt =====
-- include/resilientdds/dds_transport.hpp and src/dds_transport.cpp: the adapter to Fast DDS. Fast DDS
-- itself is a parameter: its default QoS values, its factories and its return codes.
pub mod Profile
pub mod Limits
pub mod Compatible
pub mod Security
pub mod SecurityRules
pub mod Start
pub mod StartRules
pub mod Lifecycle
pub mod Teardown
pub mod Publisher
pub mod WriteRules
pub mod Concurrent
pub mod Subscriber
pub mod Pipeline
pub mod Listener
pub mod Tallies
pub mod Totals
pub mod Statuses
pub mod Counts
pub mod Forgery
pub mod Names
pub mod Latency
pub mod Percentiles
pub mod Ranks
pub mod Fixtures
mod Examples
mod Streams
mod Runs

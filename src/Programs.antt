-- ===== src/Programs.antt =====
-- The programs of apps/ as loops over the components.
pub mod ResourceWriter
pub mod AuthorityReader
pub mod Benchmark
pub mod Simulator
pub mod DdsPublisher
pub mod Probes
pub mod ProbeQos
pub mod ResourceReader
pub mod AuthorityWriter
pub mod DdsSubscriber
pub mod CommandLine
pub mod EndToEnd
mod Examples
mod Runs
mod Streams

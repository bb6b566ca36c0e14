-- ===== src/Lib.antt =====
-- Verification of the resilient DDS data plane: a C++ library and programs that carry telemetry over
-- Fast DDS, watch every stream for faults, and report the health of each source.
--
-- How the program works. A publisher (`TelemetryPublisher` of src/dds_transport.cpp) writes samples
-- to a topic. A subscriber's listener (`TelemetrySubscriber`) takes them, records their latency,
-- tells the health monitor of each, asks the anomaly detector what is wrong with it, counts all of
-- this in the metrics registry, and appends every anomaly to the audit file. Status callbacks of the
-- middleware (deadline, liveliness, match, incompatible QoS) go to the health monitor as well, and a
-- poller asks it for each source's state.
--
-- Files and code:
-- - Base: Boolean tests, lists, exact integers, byte strings, maps and decimal text that the
--   other modules share. `Base.Dict` stands for `std::unordered_map`, `Metrics.Ordered` for
--   `std::map`.
-- - Telemetry: include/resilientdds/telemetry.hpp.
-- - Detector: include/resilientdds/anomaly_detector.hpp, src/anomaly_detector.cpp. `evaluate` is
--   composed of its guards `schema_events`, `freshness_events` and `sequence_guard`, in the order of
--   the code. `Detector.Trace` feeds it a stream.
-- - Health: include/resilientdds/health_monitor.hpp, src/health_monitor.cpp. `Health.Rules` has the
--   body of each handler on one source's state, `Health.Monitor` the methods of `HealthMonitor`,
--   `Health.Events` the monitor under any sequence of calls.
-- - Metrics: include/resilientdds/metrics.hpp, src/metrics.cpp. `Counters` adds up increments,
--   `Reading` reads the rendered text, `Bag` and `Threads` have the counters as a quotient of the
--   increments by their order, and the registry under several threads.
-- - Audit: include/resilientdds/audit_sink.hpp, src/audit_sink.cpp.
-- - Qos: include/resilientdds/qos_profiles.hpp, src/qos_profiles.cpp.
-- - Transport: include/resilientdds/dds_transport.hpp, src/dds_transport.cpp. `Profile` translates a
--   QoS profile, `Security` checks and applies the security files, `Start` makes the entities,
--   `Teardown` has the calls of a start and of a destructor, by the rules of `Lifecycle`,
--   `Publisher`, `Subscriber` and `Latency` have the two classes' operations. `Concurrent` has calls
--   of `publish` that overlap, as processes of one step relation that share the statistics and the
--   registry, and `Listener` the subscriber's listener under any sequence of its callbacks, with
--   `Totals`, `Statuses` and `Counts` for its counters. `Ranks` is about the percentiles of the
--   latencies, `Forgery` about source ids with line breaks and `Names` about those without.
-- - Programs: the programs of apps/. `DdsPublisher` is the publisher's loop and
--   `DdsPublisher.Setup` what goes before it, `DdsPublisher.Running` the wait for a reader, the
--   writes among the callbacks and the end; `DdsSubscriber` is the subscriber with its poller beside
--   the listener, `DdsSubscriber.Report` its last gauges, and `DdsSubscriber.Ending` its end with
--   callbacks still coming in (`Gauges` and `Shown` are about what the gauges show); the two modules `Session` follow a whole run
--   of each, `DdsSubscriber.Dashboard` reads what the subscriber prints, and `EndToEnd` joins the
--   two. `Probes` has the calls of the factory and the exit codes of the four probes
--   (authority_writer, authority_reader, resource_writer, resource_reader), `ProbeQos` their QoS,
--   `AuthorityWriter` and `ResourceWriter` their loops, `AuthorityReader` and `ResourceReader` their
--   listeners. `CommandLine` reads the options of all six. `Benchmark` is the loop of
--   apps/benchmark_core.cpp, `Simulator` apps/simulator.cpp.
-- The modules Examples, Streams and Runs of each part hold concrete runs, on the values of
-- `Transport.Fixtures` where they need a middleware.
--
-- State. A class is a record of its fields; a method takes the object and returns the new one beside
-- its result. The objects that the program shares by reference are fields of the one that uses them.
-- A method of a class with a mutex (the registry, the audit sink) holds it throughout, so that calls
-- of several threads are a sequence of calls in some order. `publish` holds none; its calls overlap in
-- `Transport.Concurrent`. `HealthMonitor` has none either, though the subscriber's poller uses it
-- beside the listener: C++ gives no meaning to accesses that overlap. The model takes callbacks one
-- after another, and a round of the poller either whole or as two parts, the decision and the writing
-- of it, with callbacks between them.
--
-- Numbers. Unsigned integers wrap as in C++, modulo 2 ^ 32 or 2 ^ 64. Signed 64-bit integers are exact:
-- their overflow is undefined in C++, and the model says nothing about a run in which it occurs.
-- Division of signed integers truncates towards zero. `double` is a type parameter; where the
-- code computes with it (`latency`) its arithmetic is the parameter `Floats`.
--
-- Fuel. `Base.Decimal` prints a number n in at most n + 1 rounds, each of which takes a digit off.
-- The compare-exchange loop of `publish` recurs on the number of spurious failures that a write is
-- given, and the loops of the benchmark, of the simulator, of the publisher and of the authority
-- writer, with its wait, on the number of rounds that are left. The resource writer's wait for a
-- match, which is also the publisher's, has fuel, one for each 50 ms of its limit and one more. Its
-- loop of writes (`ResourceWriter.Loop`) and the publisher's loop of rounds as it is written
-- (`DdsPublisher.Loop`) have fuel too, one for each round and one more. The tests of these loops and of
-- the authority writer's, `seq <= count` on a `std::uint64_t`, never fail for the count 2 ^ 64 - 1, with
-- which the programs do not end; the models by rounds left are those of smaller counts. All other
-- loops recur on the list of what they process. The sequential `publish_all` stands for writes made
-- one after another.
--
-- Numbers on the command line. `stoull` also stands for `std::stoul` (64 bits); where a reader of
-- numbers throws, or its result is left open by C++, the options are `none`.
--
-- Not modelled: Fast DDS itself (its factories, default QoS values and return codes are parameters),
-- the file system (a parameter), standard output but for the lines that the models name, sleeps, the
-- clock (its readings are arguments), the publisher's calls of `assert_liveliness`, which go to Fast
-- DDS alone, and tests/, scripts/ and docker/.

pub mod Base
pub mod Telemetry
pub mod Detector
pub mod Health
pub mod Metrics
pub mod Audit
pub mod Qos
pub mod Transport
pub mod Programs

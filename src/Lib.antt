-- ===== src/Lib.antt =====
-- holonightd: a daemon that watches the health of a machine, and a daemon that follows coding
-- agents and notifies the user. This library models the core of both and proves what it says
-- below.
--
-- The agent daemon (apps/agentd) keeps a registry of agent sessions and a table that binds
-- desktop notifications to terminal windows. Hooks of the agents publish events over D-Bus.
--   Agent/State, Agent/Event  AgentState, AgentEvent, AgentSession and ActivationDescriptor of
--     include/holonightd/agentd/AgentActivity.h, and libs/agent/AgentActivity.cpp (to_json is
--     AgentEvent::toJson, and so on: each definition has its function's name in snake_case)
--   Agent/Normalizer          libs/agent/ProviderNormalizer.cpp
--   Agent/Ancestry            libs/agent/ProcessAncestryReader.cpp, on the bytes of a stat line
--   Agent/Registry            libs/agent/SessionRegistry.cpp; the map of sessions is passed on
--     explicitly, and each method, which holds the one mutex throughout, is a step
--   Agent/Bindings            libs/agent/NotificationActionBindings.cpp
--   Agent/Message, Agent/Bridge  libs/agent/NotificationBridge.cpp
--   Agent/Activation          libs/agent/ShellActivationClient.cpp and activateSession
--   Agent/EventCommand        the arguments and the event of apps/agent-event/main.cpp
--   Agent/Service             the D-Bus methods and the idle loop of apps/agentd/main.cpp, with
--     the signals of the notification server; one thread processes them, so they are the steps
--
-- The health daemon collects observation events, and a rule engine makes findings of them.
--   Observation               include/holonightd/ObservationEvent.h and the severities of
--     libs/storage/ObservationEvent.cpp; Observation/Wire has toJson and fromJson
--   Rules                     the types of include/holonightd/RuleEngine.h; Rules/Operators,
--     Rules/Matching, Rules/Evaluation, Rules/Builtin and Rules/Loading are the parts of
--     libs/health/RuleEngine.cpp
--   Collectors                libs/health/MemoryCollector.cpp, StorageCollector.cpp,
--     SystemdCollector.cpp and PacmanCollector.cpp
--   Status                    collectAllEvents, the overall status of the report and the exit code
--     of libs/health/Daemon.cpp
--   Store                     libs/storage/EventStore.cpp: the rows in Store, the statements in
--     Store/Operations, pruneEventsByCapacity in Store/Capacity, exportToJsonl in Store/Export;
--     each method, which holds the mutex throughout, is a step on the database
--   Daemon                    runIteration and run of libs/health/Daemon.cpp, and the arguments
--     of apps/healthd/main.cpp
--   HealthCheck               libs/health/HealthCheckJob.cpp and LlmClient.cpp
--   Command                   the loop of libs/process/CommandRunner.cpp: a run is a list of
--     rounds, each with what its read, its waits, the flag and the clock gave
--   Config, Logger            libs/config/Application.cpp; the levels and the filter of
--     libs/logging/Logger.cpp
--
-- Prelude has the tests, lists, maps and texts that these share; Tests runs the models.
--
-- Arguments. Code that is not in the repository is an argument of what uses it: the JSON library
-- (Json, with its laws in JsonLaws), double, std::stod and regular expressions (Std), streams,
-- files, statvfs, TOML tables, the D-Bus and the clocks, whose every reading is an argument of
-- its own. SQLite is a record of its calls (Store), one call for each statement that the program
-- prepares; what its documentation says of transactions, of ORDER BY and LIMIT, and of the rows
-- that a DELETE takes are laws beside the theorems that use them, and Tests/Memory has a database
-- in which they hold. The files of an export are a record of their calls (Store/Export), with
-- laws of its own. A path names a file: two texts can name the same one, and what the export
-- needs is that its destination and its temporary file are not the same. Times are counts of
-- nanoseconds, as integers without a bound; the table and the JSON of events hold whole
-- microseconds, to which a time is cut towards zero. system_clock and steady_clock have readings
-- of their own. A std::string is a native text where it is compared, copied or joined, and the
-- list of its bytes where it is cut or walked.
--
-- Bounds. Byte counts wrap at 2^64 as they do in the program (Collectors/Storage, Memory). A
-- number is printed with fuel of 20 decimal or 16 hexadecimal digits, enough for 64 bits. The
-- climb to the parents of a process has the program's own limit of 64 rounds as its fuel. The
-- pruning to a capacity has its rounds as fuel, and every round deletes a row, so more rounds than
-- rows are enough. The main loop has its iterations as fuel; its sleep in steps of 100 milliseconds
-- has one more than the milliseconds of the interval.
--
-- Not modelled: building and sending of D-Bus messages, the output of the logger, threads, the
-- creation of processes and pipes, the opening of the database and its schema, and the text of
-- the status report, which are calls of the system or texts for a reader;
-- libs/health/FilesystemScanner.cpp, whose walk is steered by the errors of an iterator and whose
-- counts are only logged; and apps/agent-run, which is process control.
pub mod Prelude
pub mod Json
pub mod Std
pub mod Observation
pub mod Rules
pub mod Agent
pub mod Collectors
pub mod Status
pub mod Store
pub mod Logger
pub mod Command
pub mod Config
pub mod Daemon
pub mod HealthCheck
pub mod Tests

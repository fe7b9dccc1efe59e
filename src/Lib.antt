-- ===== src/Lib.antt =====
-- wkbench: a benchmark runner whose scenarios are graphs of units, wired by typed ports.
--
-- The program's parts. A scenario (benchkit/dsl) names units and their specs. The kernel
-- (benchkit/kernel) resolves each unit's kind in a registry (benchkit/registry), wires the inputs of the
-- units to the outputs of others, orders them by a depth-first search, and then validates, plans and runs
-- them one after the other; background units are started in their turn and stopped at the end, and the
-- outputs that units have published are closed last. The units under units/ produce identities, targets
-- and groups and send traffic over them. A plugin is a process that serves units: the host's side
-- (benchkit/pluginhost) registers them as remote units, and the plugin's (sdk/go/wkbench/plugin) runs
-- them; the two speak in frames (benchkit/protocol).
--
-- Base has what the files share: native numbers, texts as lists of code points (Base.Texts), maps as
-- association lists in which a write keeps the place of its key (Base.Dicts), errors as values
-- (Base.Results), Go's `int` (Base.Ints) and sorting (Base.Sort).
-- Contract is benchkit/contract/types.go: the definition of a unit and its ports; Contract.TestEnv is
-- TestRunEnv, with floats and the escape of a query as parameters.
-- Registry is benchkit/registry/registry.go: Register, Resolve and Definitions.
-- Dsl is benchkit/dsl/dsl.go, behind the YAML decoder: expandValue and Parse.
-- Frame is benchkit/protocol/frame.go: WriteFrame and ReadFrame.
-- Kernel is benchkit/kernel/kernel.go: Kernel.Refs has parseRef and resolveInput, Kernel.Topo topoSort,
-- Kernel.Graph buildGraph, Kernel.Outputs the output store, Kernel.Env the environment of a unit that
-- runs, Kernel.Checks Validate and Explain, Kernel.Planning Plan, Kernel.Run the results and
-- stopBackgrounds, Kernel.Steps the body of the loop of Engine.Run, Kernel.Engine that loop and the ends
-- of a run. Kernel.Host is the interface to what a run meets outside of it, a world that each call may
-- change: the units, the clock, the background tasks with the goroutines that wait for them, the
-- context. Kernel.Lifecycle is a host with a log of the calls.
-- Units.Pool, Units.Pairs, Units.Groups, Units.Send and Units.GroupSend are units/identity/pool,
-- units/identity/person_pairs, units/core/static_groups, units/traffic/send and
-- units/traffic/group_send; Units.Fakes has the sends of units/core/fake_group_sender and
-- units/core/fake_message_sender; Units.Ports has the data of benchkit/ports, Units.Decimal the numbered
-- names.
-- In Units.Pool and Units.Pairs `max_cap` stands for the largest capacity that the runtime's make
-- allows; Units.Groups leaves that limit out, and has only the panic for a negative capacity.
-- Plugin is the two sides of a plugin. Plugin.Messages has the messages, Plugin.Manifest the manifest on
-- its way to the host, Plugin.Catalog the lookup of a kind among plugins (pluginhost/catalog.go),
-- Plugin.Inputs and Plugin.Outputs what crosses between the host's environment and the plugin's,
-- Plugin.Metrics the metric snapshots, Plugin.Artifacts the artifacts: all of these join a function of
-- pluginhost/stdio_client.go with its counterpart in plugin/server.go. Plugin.Tasks is the table of
-- background tasks of server.go, with the interleavings of its goroutines in Plugin.Tasks.Steps.
-- Plugin.Lifecycle has the frames of a run on the host and the loop of StdioClient.Run, Plugin.Requests
-- remote_unit.go and the replies to the other requests.
-- Plugin.Server has the handlers and the dispatch of server.go, and Plugin.Client the waiters, the
-- background tasks and the reader of stdio_client.go.
-- Tests has runs on small inputs.
--
-- Bounds and fuel. The search of topoSort runs on fuel one above the number of nodes: each nested call
-- has one node more on its path. Decimal numbers are written on fuel one above the number. The counters
-- of a summary wrap at 2^64; those of tasks, handles and requests are taken not to get there. The number
-- of messages is an int64, below 2^63. All else is structural recursion; the loop of traffic.send runs
-- over the list of the events that it waits for, and Write of an artifact on fuel that is the number of
-- the bytes, of which each chunk takes at least one.
--
-- Not modelled: the metric store and the rates (floats), the timers of waitBackgroundMonitor, which is a
-- call of the host, the writer of artifacts of the kernel, the processes, pipes and timers of the plugin
-- host, the report, the command line, the session pool and the HTTP units, and the code generated for
-- the messages. JSON is a pair of parameters. Latencies are left out of the results of the traffic units.
-- Texts of errors are constructors that hold what the text names. Maps are ranged over in the order of the list; where Go's order is not fixed and the
-- result depends on it, as for the first error of expandValue, the first of the list is taken.
pub mod Base
pub mod Contract
pub mod Registry
pub mod Dsl
pub mod Kernel
pub mod Units
pub mod Frame
pub mod Plugin
pub mod Tests

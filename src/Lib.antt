-- ===== src/Lib.antt =====
-- xk6-otel-gen: topologies of services, journeys over them, and the synthetic telemetry of a journey.
--
-- The program reads a topology from YAML (topology/parse.go), validates it (topology/validate.go),
-- builds for every journey a plan, a tree of calls (journey/plan.go, journey/engine.go), and executes
-- plans (journey/executor.go, journey/recovery.go, journey/fault.go), which calls a synthesizer
-- (synth/) that emits spans, metrics and logs. The validation is what the later parts rely on.
--
-- Prelude holds the shared tests, lists, sums and Go's int64. The rest follows the packages:
--   Topology/Types, Enums, Errors   topology/types.go, enums.go, errors.go: records, enumerations and
--     validation errors. A pointer is a number that refers into a Heap of services, operations and
--     edges; `none` is nil. An enumeration has a constructor `other` for every integer without a name.
--   Topology/Attributes   the free-form maps of topology/types.go, and reflect.DeepEqual on them.
--   Topology/Float   the interface of float64, whose arithmetic is an argument everywhere.
--   Topology/Graph, Dag   the traversals of topology/validate.go and validateDAG, with its lemmas in
--     Dag/Degrees, Dag/Invariant, Dag/Complete and Dag/Acyclic.
--   Topology/Validate   the other rules (Structure, Ranges and Domain, Targets), Validate itself
--     (Whole), and what a quiet rule says of one operation or call (Quiet).
--   Topology/Faults   topology/faults.go: ApplyFaults.
--   Topology/Tokens, Raw   the texts of topology/enums.go and their readers in topology/parse.go, and
--     the records of topology/raw.go.
--   Topology/Parse   topology/parse.go: what refers to nothing (Parse), the objects (Store), lookups
--     (Lookup), calls, steps and fault targets (Calls, Steps, Targets), the schema (Schema, Whole).
--     Parse/Variants and Accepted say what the parser returns, Lookup/First which edge findEdge takes.
--   Topology/Marshal   topology/marshal.go: what refers to nothing (Marshal), the trees (Tree) and the
--     schema (Schema); Tokens, Leaves, Severity, Targets, Faults and Steps read back what it writes.
--   Topology/Lint   topology/lint.go; Lint/Accepted compares it with Parse.
--   Topology/Equal   topology/equal.go, with Equal/Tree over two heaps.
--   Journey/Plan   journey/plan.go: the map of visited operations is passed from call to call, and a
--     call on a clone of it drops what it wrote. Journey/Engine is journey/engine.go.
--   Journey/World   what an execution reads from outside (the random source, the clock, the context,
--     the fault intensities), and the computations that read it, emit events and use fuel.
--   Journey/Outcome, Fault, Telemetry, Attempt, Recovery, Executor   journey/executor.go, fault.go,
--     messaging.go, replica.go and recovery.go: outcomes, faults at run time, the calls of the
--     synthesizer as events, one attempt, the retries and the recovery policy, and the nodes of a plan.
--     Plan/Parsed joins the parser and the planner.
--   Synth/Observable   synth/observable.go: the accumulators, whose atomic operations are steps that
--     interleave (Observable/Atomic), and the value of an observable metric.
--   Exporter   exporter/config.go with tls.go (Config, Config/Check, Config/Layers, Config/Defaults)
--     and exporter/endpoints.go (Endpoints).
--   K6Output   k6output/params.go (Params, with buildPipelineConfig in Params/Provided) and the queue of
--     k6output/output.go (Queue), whose two sides take steps that interleave.
--   Tests   a small topology and the theorems applied to it; Tests/Parsing, RoundTrips and Outputs do
--     the same for the parser and the linter, for the marshaller, and for the exporter, the k6 output
--     and the accumulators.
--
-- Choices. A Go map is a list of its entries in the order in which an iteration visits them, which is
-- any order. The texts of messages are left out: an error is its path and its rule. A duration is an
-- int64 whose sums and products wrap; an instant is an integer. A free-form map is
-- a list of entries whose values are those that the YAML decoder makes (Topology/Attributes), with
-- reflect.DeepEqual on them; of the calls of the synthesizer the attributes of log events and metrics
-- are left out. What MarshalYAML gives is what stands in YAML, where the tags of topology/raw.go leave
-- empty maps out. sort.Strings, the draws and the span contexts are arguments.
-- The goroutines of a parallel group run one after another, each in a world of its own that answers
-- its reads in any way; their events stand in the order of the group, one of the possible ones.
--
-- The parser and the linter start from what the YAML decoder returns; the order of the texts of paths
-- and messages, by which the linter sorts, is an argument. The parser's objects are allocated in a
-- Store: the heap and the next free references. A joined error is the list of the paths in it.
-- strings.TrimSpace, ToLower, Cut and Split, and strconv.Atoi and ParseBool, are functions of
-- Prelude/Text and Prelude/Atoi; url.Parse, net.SplitHostPort, os.LookupEnv, time.ParseDuration and the
-- files are arguments.
--
-- Fuel. The loop of validateDAG has one round for each operation. The nesting of operations
-- in a plan is bounded by the number of operations, and the fallbacks of fallbacks by the rank of an
-- edge. The descent of the ownership rule R-STR-8 through fallbacks has a depth given as an argument:
-- past it, Validate has no result in the model.
--
-- The traversals of the fallbacks of fallbacks in MarshalYAML and Equal have a depth, and no result
-- past it.
--
-- Not modelled: the YAML decoder, the texts of the linter's messages, the synthesizer but for its
-- accumulators, the pipelines and exporters that are set up from a configuration, the instruments of the k6 output,
-- the k6 module and the visualizer; of the execution, panics and the nil checks of Execute.
pub mod Prelude
pub mod Topology
pub mod Journey
pub mod Synth
pub mod Exporter
pub mod K6Output
pub mod Tests

-- ===== src/Lib.antt =====
-- A model of the core of devsec, a command line tool that scans a project for security findings,
-- checks them against policies, deploys behind gates, and reports on compliance.
--
-- The parts, and how they interact:
--
-- * Model models internal/model/model.go: findings with their severities, and reports. The other
--   parts work on them.
-- * Pipeline models internal/pipeline. Pipeline.Types has the kinds, statuses, limits and errors of
--   pipeline.go and errors.go. Pipeline.Validate is Stage.Validate and Pipeline.Validate, which call
--   hasCycle, in Pipeline.Cycle. Pipeline.Sort is topologicalSort of executor.go. Pipeline.Result has
--   the results and their counts. Pipeline.Completed, Pipeline.Status, Pipeline.Runner and
--   Pipeline.Execute are the executor: Execute validates, orders and runs the stages;
--   executeSequential and executeStage are functions on a state of results, completed stages and an
--   abstract world, which the runners, the reporter and the context read and change. Pipeline.Order
--   says what an order of stages is, without the code. Pipeline.Errors has the texts of errors.
-- * Gates models internal/gates. Gates.Types has the options, decisions, results and clients of
--   config.go and errors.go; Gates.Checks and Gates.Health the gates of precheck.go and
--   postcheck.go; Gates.Run the two runners, which share one loop; Gates.Rollback rollback.go; and
--   Gates.Deploy the deployment of gates.go, which runs the checks, upgrades the release, checks
--   again and rolls back. The cluster is an abstract world that the clients' calls change.
-- * Compliance models internal/compliance: Compliance.Assess is assessControl and assessFramework of
--   mapper.go, Compliance.Gap is gap.go, and Compliance.Coverage is coverage.go.
--   Compliance.Extract has the search for the names of weaknesses in texts, and Compliance.Mapper the
--   rest of mapper.go, with the operations of framework.go: findings are enriched with the controls
--   that Compliance.Cwe, which is cwe.go, maps their weaknesses to, and then assessed.
--   Compliance.Cwe.Defaults has its tables, Compliance.Frameworks those of framework.go, and
--   Compliance.Book the report of compliance.go, which Compliance.Generate, from report.go, fills.
-- * Alerting models internal/alerting: Alerting.Manager is manager.go without SendAsync, and
--   Alerting.Registry is registry.go.
-- * Report models internal/report/aggregator.go: Report.Severities has the normalization of severities
--   and the summary, Report.Dedup the removal of duplicates, and Report.Aggregator the aggregator,
--   which uses both.
-- * Runners models internal/pipeline/runner.go, one module for each runner, and what they share in
--   Runners.Common and Runners.Registry. The executor calls them for its stages: Runners.Scan the
--   scanners, Runners.Policy the policy engine, Runners.Report the aggregator of Report,
--   Runners.Compliance the mapper of Compliance, and Runners.Custom a process.
-- * Policy models internal/policy/decision.go over the answer of the engine.
-- * Kubernetes models internal/kubernetes/health.go: Kubernetes.Health the reports, and
--   Kubernetes.Check the calls of the cluster.
-- * Progress models internal/progress/channel.go.
--
-- Base holds what the parts share: text equality, lists over the native numbers, membership by name,
-- and integers. The modules whose names end in Tests run the code at samples, and
-- apply the theorems there.
--
-- Go's strings are texts, and a string of which the code only asks whether it is one of some constants
-- is a data type with a constructor for any other text. The length of a name is that of its UTF-8 in
-- bytes, as in Go. A nil pointer is none. A Go map is an association list or a function; where the code
-- ranges over a map, the order of its keys is an argument. Machine integers count findings and stages,
-- which are far below 2 ^ 63, so they are numbers without a bound.
--
-- Fuel: the queue loop of topologicalSort has one unit for each stage and one more, since a stage
-- enters the queue once; the search of hasCycle has one unit for each stage and one more, since it
-- only descends to unmarked stages.
--
-- The parallel run of the executor, executeParallel, is Pipeline.Parallel: a step relation of the loop
-- and the goroutines it starts, one step for each operation on what they share; a call of executeStage
-- is one step, and Execute takes the run as an argument. Pipeline.Parallel.Spec is its abstract
-- scheduler, Pipeline.Parallel.History the failures of a run. It needs no fuel: each step but the
-- sleep of the loop and changes of the world shortens a measure, which is 12 for each stage and 2 at
-- the start.
--
-- Not modelled: times and durations, messages and metadata of gates and gaps, floats, the loader and
-- the scanners, which read files and start processes, the texts of reports, the client of Helm, the
-- deployments of Kubernetes, the policy engine and its validator, cryptography, the terminal interface,
-- and the command line.
pub mod Base
pub mod Model
pub mod Pipeline
pub mod Gates
pub mod Compliance
pub mod Alerting
pub mod Report
pub mod Runners
pub mod Policy
pub mod Kubernetes
pub mod Progress

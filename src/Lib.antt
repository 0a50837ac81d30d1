-- ===== src/Lib.antt =====
-- CrawlLedger reads access logs, attributes their cost, simulates a policy for crawlers over the
-- traffic that it saw, and protects a site from floods of requests. This library models its
-- arithmetic, the validation and the simulation of policies, the detector of `internal/protect`, and
-- how a file and the live map of Nginx are replaced.
--
-- The parts and their files:
--   Base        lists, byte strings, maps, sorting, 64-bit words: what the parts share
--   Domain      internal/domain: the event, the tests on texts, RatioPPM (math.go)
--   Aggregate   internal/aggregate: Sketch is kmv.go, Rate is the bucket of rate_model.go, Rows is
--               model.go, Counters and Aggregator are aggregator.go (Aggregator its ids and cells, Add
--               its Add and Finish, Flush its batches)
--   App         internal/app: ParseThreshold is parse_threshold.go, Simulate is runSimulation of
--               simulate.go
--   AtomicFile  internal/atomicfile/write.go; Calls has its system calls
--   Catalog     internal/catalog/catalog.go
--   Cost        internal/cost/calculate.go
--   Policy      internal/policy: Matcher is matcher.go, Validate is validate.go, Simulate is
--               simulate.go (Cells its Add, Risks its risks and statusFor, Finish its Finish, with
--               Conserves of simulation_load.go); Model is domain/policy.go
--   Protect     internal/protect: Compare, Detector (detector.go), Baseline (baseline.go),
--               Config (config.go), State (state.go and EmptyState of coordinator.go), Mutate
--               (ApplyActiveMap of mutate.go)
--   Examples    the theorems at concrete inputs
--
-- In the detector a record goes through `observe` (Observe): its status is classified
-- (Accounting), it is counted for the site and for at most two groups in the bucket of its time
-- (Buckets), and it may count as an attempt against an applied rule (Paths). Sensor errors go into
-- a ring of a hundred (Health). `evaluate` (Evaluate) drops the buckets outside the window, judges
-- every group by the thresholds of the baseline (Groups), and turns the groups that qualify into
-- rules (Rules), whose state is validated. `new_detector` (Lifecycle) starts it, and
-- Lifecycle/Reachable puts the calls into any order.
--
-- The aggregator counts every event in a cell, in the statistics of its route, in its subject and in
-- the rate model, and gives what it counted to the sink when a batch is full and at the end.
--
-- A simulation starts from a policy that `validate` accepted against the catalog. `add` gives each
-- cell of traffic to the first rule that matches, `finish` adds what the rate model allowed and
-- limited for the rate limits, and `run_simulation` refuses a result whose sums are not conserved.
-- The slices that run parallel to the rules are one row for each rule.
--
-- The system calls of `replace` take their answers from an arbitrary sequence, and so do the commands
-- of `apply_active_map`; a directory is a map from names to contents, and another process that
-- writes to it is not modelled.
--
-- A method with a receiver is a function from the record of its fields to the changed record and
-- its result. A Go map is an association list in an order of iteration, so a theorem on every list
-- holds for every order. An int64 that the code keeps non-negative is a native natural number, and
-- the overflow tests are kept as they are written. The time of an event and of its receipt, and
-- the arguments of the ratios and thresholds, whose sign a guard tests, are integers; the time of
-- an evaluation, the times of a rule and those of the minutes of a baseline, which are refused
-- unless they are positive, are natural numbers, where zero stands for every time that is not
-- positive. A product of two words is its high and its low word. An error keeps the changes made
-- before it; the aggregator and the simulator, which their callers drop after an error, return the
-- error alone. Every loop is a recursion on the list it runs over, but for the binary searches of
-- the matcher and of the sketch, which run on fuel for the length of their range: a step shortens
-- the range, so the fuel is enough; for the ten attempts at a temporary name, which are those of
-- the source; and for the decimal digits of an int64, of which there are at most nineteen.
--
-- Not modelled: what a reader finds in a file that is being written, processes, the clock, SQL,
-- templates and the JSON encodings. SHA-256 is a parameter of the functions that use it.
mod Base
pub mod Domain
pub mod Aggregate
pub mod App
pub mod AtomicFile
pub mod Cost
pub mod Catalog
pub mod Policy
pub mod Protect
mod Examples

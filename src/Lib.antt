-- ===== src/Lib.antt =====
-- SLOServe: an SLO-aware admission router in front of a language-model server. These modules model
-- the Python package src/sloserve and prove what its parts promise to one another.
--
-- The parts and their files:
-- - Config (src/sloserve/config.py): the validated sections, one file for each group. A section's
--   function has the constraints of its fields and then its model validators, in pydantic's order.
-- - Router/Models (router/models.py): `RequestEnvelope`, the checks of its constructor, and the number
--   of tokens that the backend is asked for.
-- - Router/Policies (router/policies): FCFS, static priority and the SLO-aware policy. `order` is the
--   method of the three classes; the built-in `sorted` is a stable insertion sort (Prelude/Sorting).
-- - Router/Clipping (router/clipping.py): `OutputClipper`, before the queue and at dispatch.
-- - Router/Controller (router/adaptive_clipping.py): the four-level controller. `observe` is the first
--   half of `update`, `scan` its loop over the thresholds, `settle` and `relax` the rest.
-- - Router/Admission (router/admission.py): the bounded queue. `Admission/State` has the entries and
--   the queue, `Admission` the loop that admits, `Admission/Handlers` one function per coroutine from
--   one wait to the next, and `Admission/Construction` the constructor.
-- - Workload (workload): arrival schedules, the request generator, the length predictor with its
--   training pairs and quality report, and the outcomes of a dispatched request.
-- - Metrics (metrics/records.py, metrics/adaptive_cap.py): the facts of a request and of a decision.
-- - Workload/HttpBackend (workload/http_backend.py): one streaming call. `stream` is the loop over its
--   lines, `on_chunk` the handling of a decoded chunk. Workload/Pacing (workload/dispatcher.py) is the
--   paced dispatcher, whose tasks end in any order.
-- - Metrics/Serialization and Metrics/Jsonl (metrics/serialization.py): a record as a mapping, and files
--   of records as lists of lines or of rows.
-- - Analysis/Queueing (analysis/queueing.py): the service-time fit and the M/G/1 wait.
-- - Analysis/Percentiles, Analysis/Attainment, Analysis/Metrics (analysis/metrics.py): the summary of a
--   run. `summary_of` is what `calculate_metrics` returns once the percentiles are there.
-- - Experiments/Correctness (experiments/correctness.py): the evidence about starvation, with the sweep
--   over arrivals and departures. Experiments/Benchmark and Experiments/Completeness
--   (experiments/benchmark.py): the join of results and telemetry, and the completeness report.
-- - Analysis/Seeds, Analysis/Gates, Analysis/Retention and Analysis/Reconciliation
--   (analysis/expl.py): statistics over whole seeds with their bootstrap intervals, the gates on a
--   controller's decisions, and the decisions against the records of the requests. `percentile` is
--   `_nearest_rank`.
-- - Experiments/Sweep (experiments/sweep.py): the points of a sweep, their configurations and the merge
--   of mappings. Config/Validation (config.py) is the validation of a whole experiment.
-- - Statistics: the medians of the `statistics` module.
-- - Examples: concrete inputs.
--
-- How they interact: a configuration builds a policy, a clipper and a controller; the queue asks the
-- policy for an order whenever a slot is free, the controller for a level at each dispatch, and the
-- clipper for the envelope under that level's cap.
--
-- Representation. Python's int is ℤ. A float is a parameter (Float): theorems use only the laws that
-- they name, a strict weak order (`IsOrdered`), the laws of rounded arithmetic (`IsRounded`), or those of
-- a floored quotient (`IsQuotient` in Router/Policies/Aging), which
-- NaN does not have. An exception is a value (Prelude/Exceptions). The queue's entries are shared
-- objects, so they live in a heap and the lists hold addresses; an envelope has an address too, since
-- the queue compares envelopes by identity. A critical section under the condition's lock is one step,
-- and the event loop may run the steps in any order (`Event`, `run`); a step that raises ends the run.
-- The clock is a function of the number of readings so far. The admission loop runs on fuel, the
-- number of waiting entries, of which each round takes one.
--
-- A completion time of the queue's results is always there, so the join has no check for it. A CSV cell
-- and a JSON value are one parameter (`Values`), with what a reader gives back of what a writer was
-- given. The dispatcher's semaphore is the number of permits left. A status that the starvation analysis finds
-- outside the enumeration is `none` (`Observed`). The controller's depth raises when a float cannot hold
-- it (`fits`), and so does a wait of infinitely many aging steps (`floor_div`); other integers that are
-- converted are taken to be in the range of floats. `⊘` stands for a division whose divisor is not zero:
-- the time constant of the controller's average is checked where it divides.
--
-- The random generator, `round`, `math.ceil`, `math.isclose`, `math.sqrt`, `statistics.fmean`,
-- `urlsplit`, `str`, `json`, the HTTP client and the SHA-256 pattern are parameters.
--
-- Not modelled: the tasks themselves beyond their start, their cancellation and their end; the files;
-- YAML; the fake backend, the configuration hash, the runs and the rows of a sweep, the reading of
-- decisions from their files, the other analysis, the metadata of a run, the GPU sampler, and the
-- command line.
pub mod Prelude
pub mod Float
pub mod Router
pub mod Config
pub mod Statistics
pub mod Workload
pub mod Metrics
pub mod Analysis
pub mod Examples
pub mod Experiments

-- ===== src/Router/Admission/Construction.antt =====
-- `AdmissionQueue.__init__`, and the runs of a queue that it made.
use sloserve.Router.Admission.Preservation.{run-Sound}
use sloserve.Config
use sloserve.Config.Experiment.{ExperimentConfig, server_admits_router_concurrency}
use sloserve.Router.Admission.Limits.{run-SameLimits}
use sloserve.Config.{SchedulerPolicyName, RouterConfig, BackendConfig, field_ge, validate_router}
use sloserve.Config.Admission.{AdmissionControlConfig}
use sloserve.Prelude.{
  ℕ, pos, ◌≤ℤ◌, Bool, true, false, not, Option, none, some, List, [], Result, ok, err, raise_if,
  value_error, not_implemented_error, ◌>>=◌, ◌>>◌, >>=-eq-ok, if◌then◌else◌, ◌≡◌, arith, ◌∙◌,
  length,
}
use sloserve.Float.{Float}
use sloserve.Router.Policies.{SchedulingPolicy, fcfs_policy}
use sloserve.Router.Clipping.{OutputClipper}
use sloserve.Router.Controller.{AdaptiveClipController, build_adaptive_clip_controller}
use sloserve.Router.Admission.{AdmissionQueue, in_flight_entries}
use sloserve.Router.Admission.Invariant.{Sound}
use sloserve.Router.Admission.Handlers.{Event, run}

abbrev is_fcfs : SchedulerPolicyName → Bool
is_fcfs Config.fcfs = true
is_fcfs _ = false

module _ ⦃f : Float⦄ where
  -- The policy given, or FCFS where the configuration asks for it.
  abbrev chosen_policy : RouterConfig → Option SchedulingPolicy → Result SchedulingPolicy
  chosen_policy c (some p) = ok p
  chosen_policy c none = do
    raise_if (not (is_fcfs c.policy)) (not_implemented_error "admission is outside Week 1 step 6")
    ok fcfs_policy

  abbrev required_clipper : Option OutputClipper → Result OutputClipper
  required_clipper none = err (value_error "enabled adaptive clipping requires an OutputClipper")
  required_clipper (some k) = ok k

  -- The controller and the clipper, where adaptive clipping is on.
  abbrev adaptive_parts :
      Option AdmissionControlConfig
      → Option OutputClipper
      → Result (Option AdaptiveClipController × Option OutputClipper)
  adaptive_parts none k = ok (none, none)
  adaptive_parts (some a) k = if not a.adaptive_clip_enabled then ok (none, none) else do
    clipper ← required_clipper k
    controller ← build_adaptive_clip_controller a
    ok (controller, some clipper)

  unfoldable pub build_queue :
      RouterConfig
      → BackendConfig
      → Option SchedulingPolicy
      → Option AdmissionControlConfig
      → Option OutputClipper
      → Result AdmissionQueue
  build_queue c b policy a k = do
    p ← chosen_policy c policy
    (controller, clipper) ← adaptive_parts a k
    ok (record {
      queue_capacity = c.queue_capacity;
      max_in_flight = c.max_in_flight;
      request_timeout_s = b.request_timeout_s;
      policy = p;
      controller = controller;
      clipper = clipper;
      heap = [];
      waiting = [];
      entries = [];
      started = false;
      closing = false;
      closed = false;
      decisions = [];
      reads = 0;
    })

  empty-Sound :
      (q : AdmissionQueue)
      → q.heap ≡ []
      → q.waiting ≡ []
      → q.entries ≡ []
      → pos 0 ≤ℤ q.queue_capacity
      → pos 0 ≤ℤ q.max_in_flight
      → Sound q
  empty-Sound q h w e c m =
      rw (h, w, e)
        (record {
          coherent = tt;
          waits = tt;
          waiting_distinct = tt;
          entries_distinct = tt;
          entries_live = tt;
          tracked = λ i l. absurd (cc);
          bounded = c;
          flight = m;
        })

  build_queue-Sound :
      (c : RouterConfig) (b : BackendConfig) (policy : Option SchedulingPolicy)
      (a : Option AdmissionControlConfig) (k : Option OutputClipper) (q : AdmissionQueue)
      → validate_router c ≡ ok tt
      → build_queue c b policy a k ≡ ok q
      → Sound q
  unfolding build_queue validate_router
  build_queue-Sound c b policy a k q valid h =
      let (p, _, h₁) = >>=-eq-ok (chosen_policy c policy) _ h in
      let ((controller, clipper), _, h₂) = >>=-eq-ok (adaptive_parts a k) _ h₁ in
      empty-Sound q (ground arith) (ground arith) (ground arith) (ground arith) (ground arith)

  build_queue_limits :
      (c : RouterConfig) (b : BackendConfig) (policy : Option SchedulingPolicy)
      (a : Option AdmissionControlConfig) (k : Option OutputClipper) (q : AdmissionQueue)
      → build_queue c b policy a k ≡ ok q
      → (q.queue_capacity ≡ c.queue_capacity) × (q.max_in_flight ≡ c.max_in_flight)
  unfolding build_queue
  build_queue_limits c b policy a k q h =
      let (p, _, h₁) = >>=-eq-ok (chosen_policy c policy) _ h in
      let ((controller, clipper), _, h₂) = >>=-eq-ok (adaptive_parts a k) _ h₁ in
      (ground arith, ground arith)

  pub built_run-Sound :
      (clock : ℕ → f.F) (c : RouterConfig) (b : BackendConfig) (policy : Option SchedulingPolicy)
      (a : Option AdmissionControlConfig) (k : Option OutputClipper) (es : List Event)
      (q q' : AdmissionQueue)
      → validate_router c ≡ ok tt
      → build_queue c b policy a k ≡ ok q
      → run clock q es ≡ ok q'
      → Sound q' × (q'.queue_capacity ≡ c.queue_capacity) × (q'.max_in_flight ≡ c.max_in_flight)
  built_run-Sound clock c b policy a k es q q' valid h r =
      let (capacity, limit) = run-SameLimits clock es q q' r in
      let (c₀, l₀) = build_queue_limits c b policy a k q h in
      (
        run-Sound clock es q q' (build_queue-Sound c b policy a k q valid h) r,
        capacity ∙ c₀,
        limit ∙ l₀,
      )

  -- Under a validated experiment the router never has more requests at the backend than the server
  -- was started to run at once.
  pub in_flight-le-max_num_seqs :
      (clock : ℕ → f.F) (x : ExperimentConfig) (policy : Option SchedulingPolicy)
      (a : Option AdmissionControlConfig) (k : Option OutputClipper) (es : List Event)
      (q q' : AdmissionQueue)
      → validate_router x.router ≡ ok tt
      → server_admits_router_concurrency x ≡ ok tt
      → build_queue x.router x.backend policy a k ≡ ok q
      → run clock q es ≡ ok q'
      → pos (length (in_flight_entries q')) ≤ℤ x.server.max_num_seqs
  unfolding server_admits_router_concurrency
  in_flight-le-max_num_seqs clock x policy a k es q q' valid admits h r =
      let (v, _, limit) = built_run-Sound clock x.router x.backend policy a k es q q' valid h r in
      ground (arith, v.flight, limit)

-- ===== src/Workload/Pacing.antt =====
-- src/sloserve/workload/dispatcher.py: the dispatcher with its semaphore. A task runs from its start
-- to the end of its `send`; the event loop decides which one ends next.
pub mod Permits
use sloserve.Prelude.{
  ℕ, ℤ, pos, zero, suc, ◌+◌, ◌-◌, ltb, ltb_ℤ, Bool, true, false, not, String, Option, none, some,
  List, [], ◌∷◌, ◌++◌, get_elem?, set, map, Result, ok, err, not_implemented_error, ◌>>=◌,
  if◌then◌else◌,
}
use sloserve.Prelude.Sorting.{sorted}
use sloserve.Float.{Float, ◌≺◌, ◌⊖◌, zero_f}
use sloserve.Config.{SchedulerPolicyName, fcfs, RouterConfig}
use sloserve.Workload.Dispatcher.{DispatchStatus, success, error, timeout, cancelled}
use sloserve.Router.Models.{RequestEnvelope}
use sloserve.Router.Policies.{SchedulingPolicy, fcfs_policy, order}

pub record DispatchResult : Type 0 where
  pub request_id : String
  pub sequence_id : ℤ
  pub status : DispatchStatus
  pub error_message : Option String

-- How `backend.send` ended under the timeout.
pub data Ending : Type 0 where
  returned timed_out cancelled_inside : Ending
  raised : String → Ending

abbrev pub is_fcfs : SchedulerPolicyName → Bool
is_fcfs fcfs = true
is_fcfs _ = false

module _ ⦃f : Float⦄ where
  -- `_result`
  abbrev pub result_of : RequestEnvelope → DispatchStatus → Option String → DispatchResult
  result_of r status error_message = record {
    request_id = r.request_id;
    sequence_id = r.sequence_id;
    status = status;
    error_message = error_message;
  }

  -- `_dispatch_one`, where its own task is not being cancelled.
  unfoldable pub dispatch_one : RequestEnvelope → Ending → DispatchResult
  dispatch_one r returned = result_of r success none
  dispatch_one r timed_out = result_of r timeout none
  dispatch_one r cancelled_inside = result_of r cancelled none
  dispatch_one r (raised text) = result_of r error (some text)

  pub record Task : Type 0 where
    pub request : RequestEnvelope
    pub result : Option DispatchResult

  -- The permits left in the semaphore, the requests still to come, and the tasks in order.
  pub record AsyncDispatcher : Type 0 where
    pub capacity : ℕ
    pub pending : List RequestEnvelope
    pub tasks : List Task

  -- The policy that the constructor stores.
  unfoldable pub policy_of : RouterConfig → Option SchedulingPolicy → Result SchedulingPolicy
  policy_of c (some policy) = ok policy
  policy_of c none =
      if is_fcfs c.policy
      then ok fcfs_policy
      else err (not_implemented_error "dispatch is outside Week 1 step 4")

  -- `run` up to the loop.
  unfoldable pub begin : ℕ → SchedulingPolicy → f.F → List RequestEnvelope → Result AsyncDispatcher
  begin max_in_flight policy start_time_s requests = do
    ordered ← order (λ r. r) policy start_time_s requests
    ok (record { capacity = max_in_flight; pending = ordered; tasks = [] })

  -- The delay that is slept before a request, where there is one.
  unfoldable pub delay_of : RequestEnvelope → (now start_time_s : f.F) → Option f.F
  delay_of r now start_time_s =
      let delay_s = r.arrival_time_s ⊖ (now ⊖ start_time_s) in
      if zero_f ≺ delay_s then some delay_s else none

  -- A step: the loop acquires a permit and starts the next task, or a task ends and releases its
  -- permit. What cannot happen changes nothing.
  pub data Step : Type 0 where
    start_next : Step
    end_task : ℕ → Ending → Step

  abbrev pub start_first : AsyncDispatcher → ℕ → List RequestEnvelope → AsyncDispatcher
  start_first d zero pending = d
  start_first d (suc capacity) [] = d
  start_first d (suc capacity) (r ∷ pending) = record d {
    capacity = capacity;
    pending = pending;
    tasks = d.tasks ++ (record { request = r; result = none }) ∷ [];
  }

  abbrev pub finish_task :
      AsyncDispatcher → ℕ → Ending → Task → Option DispatchResult → AsyncDispatcher
  finish_task d i ending task (some result) = d
  finish_task d i ending task none = record d {
    capacity = suc d.capacity;
    tasks = set d.tasks i (record task { result = some (dispatch_one task.request ending) });
  }

  abbrev pub end_at : AsyncDispatcher → ℕ → Ending → Option Task → AsyncDispatcher
  end_at d i ending none = d
  end_at d i ending (some task) = finish_task d i ending task task.result

  unfoldable pub step : Step → AsyncDispatcher → AsyncDispatcher
  step start_next d = start_first d d.capacity d.pending
  step (end_task i ending) d = end_at d i ending (get_elem? d.tasks i)

  unfoldable pub run_steps : List Step → AsyncDispatcher → AsyncDispatcher
  unfolding step
  run_steps [] d = d
  run_steps (s ∷ ss) d = run_steps ss (step s d)

  -- `asyncio.gather`: the results in the order of the tasks, once all are there.
  abbrev pub add_result :
      Option DispatchResult → Option (List DispatchResult) → Option (List DispatchResult)
  add_result (some r) (some rs) = some (r ∷ rs)
  add_result _ _ = none

  abbrev pub gather : List Task → Option (List DispatchResult)
  gather [] = some []
  gather (t ∷ ts) = add_result t.result (gather ts)

  abbrev pub sort_results : Option (List DispatchResult) → Option (List DispatchResult)
  sort_results none = none
  sort_results (some rs) = some (sorted ltb_ℤ (λ r. r.sequence_id) rs)

  abbrev pub when_started :
      List RequestEnvelope → Option (List DispatchResult) → Option (List DispatchResult)
  when_started [] results = results
  when_started (r ∷ rs) results = none

  -- What `run` returns, once the loop is over and every task has ended.
  unfoldable pub results_of : AsyncDispatcher → Option (List DispatchResult)
  results_of d = when_started d.pending (sort_results (gather d.tasks))

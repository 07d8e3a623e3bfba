-- ===== src/Workload/Pacing/Permits.antt =====
-- About the dispatcher of workload/dispatcher.py.
use mathlib.Core.List.Perm
use sloserve.Prelude.{
  ℕ, ℤ, zero, suc, ◌+◌, ◌≤◌, ltb_ℤ, Bool, true, false, String, Option, none, some, List, [], ◌∷◌,
  ◌++◌, get_elem?, map, count, All, All-append, All-set, Perm, ok, ◌≡◌, refl, arith, >>=-eq-ok, ap,
  subst, sym, ◌∙◌,
}
use sloserve.Prelude.Maps.{
  count-append, count-set, map-set, map-append, append_nil, map-map, append_assoc,
}
use sloserve.Prelude.Sorting.{sorted}
use sloserve.Prelude.Sorting.Laws.{IsInOrder, sorted-perm, sorted-IsInOrder}
use sloserve.Float.{Float}
use sloserve.Float.Integers.{integers-IsStrictOrder}
use sloserve.Router.Models.{RequestEnvelope}
use sloserve.Router.Policies.{SchedulingPolicy, order}
use sloserve.Router.Policies.Order.{order-perm}
use sloserve.Workload.Pacing.{
  DispatchResult, Ending, Task, AsyncDispatcher, Step, start_next, end_task, dispatch_one, begin,
  step, run_steps, gather, results_of, add_result, start_first, end_at, finish_task, when_started,
  sort_results, returned, timed_out, cancelled_inside, raised,
}

abbrev pub is_running : {A : Type 0} → Option A → Bool
is_running none = true
is_running (some a) = false

module _ ⦃f : Float⦄ where
  abbrev pub running : AsyncDispatcher → ℕ
  running d = count (λ t. is_running t.result) d.tasks

  -- A result is that of its own request.
  abbrev IsOwn : RequestEnvelope → Option DispatchResult → Type 0
  IsOwn r none = Unit
  IsOwn r (some result) = (ending : Ending) × (result ≡ dispatch_one r ending)

  abbrev IsOwnTask : Task → Type 0
  IsOwnTask t = IsOwn t.request t.result

  -- Each permit is free or held by a running task, each request has its task or is still to come,
  -- and each result is its request's.
  pub record IsPaced (n : ℕ) (ordered : List RequestEnvelope) (d : AsyncDispatcher) : Type 0 where
    pub permits : d.capacity + running d ≡ n
    pub requests : map (λ t. t.request) d.tasks ++ d.pending ≡ ordered
    pub own : All IsOwnTask d.tasks

  start-IsPaced :
      (n : ℕ) (ordered : List RequestEnvelope) (d : AsyncDispatcher) (capacity : ℕ)
      (pending : List RequestEnvelope)
      → d.capacity ≡ capacity
      → d.pending ≡ pending
      → IsPaced n ordered d
      → IsPaced n ordered (start_first d capacity pending)
  start-IsPaced n ordered d zero pending e k h = h
  start-IsPaced n ordered d (suc capacity) [] e k h = h
  start-IsPaced n ordered d (suc capacity) (r ∷ pending) e k h = record {
    permits = ground (
      arith,
      h.permits,
      e,
      count-append (λ t. is_running t.result) d.tasks
          ((record { request = r; result = none }) ∷ []),
    );
    requests =
        ap (λ l. l ++ pending)
          (map-append (λ t. t.request) d.tasks ((record { request = r; result = none }) ∷ []))
        ∙ append_assoc (map (λ t. t.request) d.tasks) (r ∷ []) pending
        ∙ ap (λ l. map (λ t. t.request) d.tasks ++ l) (sym k)
        ∙ h.requests;
    own = All-append IsOwnTask d.tasks _ h.own (tt, tt);
  }

  finish-IsPaced :
      (n : ℕ) (ordered : List RequestEnvelope) (d : AsyncDispatcher) (i : ℕ) (ending : Ending)
      (task : Task) (result : Option DispatchResult)
      → get_elem? d.tasks i ≡ some task
      → task.result ≡ result
      → IsPaced n ordered d
      → IsPaced n ordered (finish_task d i ending task result)
  finish-IsPaced n ordered d i ending task (some result) at e h = h
  finish-IsPaced n ordered d i ending task none at e h =
      let ended = record task { result = some (dispatch_one task.request ending) } in
      let was_running : is_running task.result ≡ true = ap is_running e in
      record {
        permits = ground (
          arith,
          h.permits,
          count-set (λ t. is_running t.result) d.tasks i ended task at was_running refl,
        );
        requests =
            ap (λ l. l ++ d.pending) (map-set (λ t. t.request) d.tasks i ended task at refl)
            ∙ h.requests;
        own = All-set IsOwnTask d.tasks i ended (ending, refl) h.own;
      }

  end-IsPaced :
      (n : ℕ) (ordered : List RequestEnvelope) (d : AsyncDispatcher) (i : ℕ) (ending : Ending)
      (task : Option Task)
      → get_elem? d.tasks i ≡ task
      → IsPaced n ordered d
      → IsPaced n ordered (end_at d i ending task)
  end-IsPaced n ordered d i ending none at h = h
  end-IsPaced n ordered d i ending (some task) at h =
      finish-IsPaced n ordered d i ending task task.result at refl h

  run_steps-IsPaced :
      (n : ℕ) (ordered : List RequestEnvelope) (steps : List Step) (d : AsyncDispatcher)
      → IsPaced n ordered d
      → IsPaced n ordered (run_steps steps d)
  unfolding run_steps step
  run_steps-IsPaced n ordered [] d h = h
  run_steps-IsPaced n ordered (start_next ∷ steps) d h =
      run_steps-IsPaced n ordered steps _
        (start-IsPaced n ordered d d.capacity d.pending refl refl h)
  run_steps-IsPaced n ordered (end_task i ending ∷ steps) d h =
      run_steps-IsPaced n ordered steps _
        (end-IsPaced n ordered d i ending (get_elem? d.tasks i) refl h)

  abbrev pub ids_of : DispatchResult → String × ℤ
  ids_of result = (result.request_id, result.sequence_id)

  abbrev pub request_ids : RequestEnvelope → String × ℤ
  request_ids r = (r.request_id, r.sequence_id)

  dispatch_one-ids :
      (r : RequestEnvelope) (ending : Ending) → ids_of (dispatch_one r ending) ≡ request_ids r
  unfolding dispatch_one
  dispatch_one-ids r returned = refl
  dispatch_one-ids r timed_out = refl
  dispatch_one-ids r cancelled_inside = refl
  dispatch_one-ids r (raised text) = refl

  add_result-inv :
      (r : Option DispatchResult) (o : Option (List DispatchResult)) (rs : List DispatchResult)
      → add_result r o ≡ some rs
      → (x : DispatchResult) × (xs : List DispatchResult) × (r ≡ some x)
        × (o ≡ some xs)
        × (rs ≡ x ∷ xs)
  add_result-inv none o rs h = absurd (cc)
  add_result-inv (some x) none rs h = absurd (cc)
  add_result-inv (some x) (some xs) rs h = (x, xs, refl, refl, cc)

  results-inv :
      (pending : List RequestEnvelope) (o : Option (List DispatchResult)) (rs : List DispatchResult)
      → when_started pending (sort_results o) ≡ some rs
      → (pending ≡ [])
        × ((xs : List DispatchResult) × (o ≡ some xs) × (rs ≡ sorted ltb_ℤ (λ r. r.sequence_id) xs))
  results-inv (r ∷ pending) o rs h = absurd (cc)
  results-inv [] none rs h = absurd (cc)
  results-inv [] (some xs) rs h = (refl, (xs, refl, cc))

  gather-ids :
      (ts : List Task) (rs : List DispatchResult)
      → All IsOwnTask ts
      → gather ts ≡ some rs
      → map ids_of rs ≡ map (λ t. request_ids t.request) ts
  gather-ids [] rs a h = let e : [] ≡ rs = cc in ap (map ids_of) (sym e)
  gather-ids (t ∷ ts) rs a h =
      let (x, xs, mine, others, e) = add_result-inv t.result (gather ts) rs h in
      let (ending, same) = subst (IsOwn t.request) mine a.0 in
      ap (map ids_of) e
      ∙ ap (λ i. i ∷ map ids_of xs) (ap ids_of same ∙ dispatch_one-ids t.request ending)
      ∙ ap (λ l. request_ids t.request ∷ l) (gather-ids ts xs a.1 others)

  -- The dispatcher, whatever the order of its steps: no more than the permitted number of tasks run
  -- at once, and the results, once they are returned, are one for each request, in the order of the
  -- sequence ids.
  pub dispatcher_refines :
      (n : ℕ) (policy : SchedulingPolicy) (start : f.F) (requests : List RequestEnvelope)
      (d : AsyncDispatcher) (steps : List Step)
      → begin n policy start requests ≡ ok d
      → (running (run_steps steps d) ≤ n)
        × ((rs : List DispatchResult)
            → results_of (run_steps steps d) ≡ some rs
            → Perm (map ids_of rs) (map request_ids requests)
              × IsInOrder ltb_ℤ (λ r. r.sequence_id) rs)
  unfolding begin results_of
  dispatcher_refines n policy start requests d steps h =
      let (ordered, e, k) = >>=-eq-ok (order (λ r. r) policy start requests) _ h in
      let first : AsyncDispatcher = record { capacity = n; pending = ordered; tasks = [] } in
      let same : first ≡ d = cc in
      let fresh : IsPaced n ordered first = record {
        permits = omega arith;
        requests = refl;
        own = tt;
      } in
      let paced = run_steps-IsPaced n ordered steps d (subst (IsPaced n ordered) same fresh) in
      let final = run_steps steps d in
      (
        omega (arith, paced.permits),
        λ rs ended.
            let (all_started, (xs, all_ended, sorted_results)) =
              results-inv final.pending (gather final.tasks) rs ended in
            let requests_of : map (λ t. t.request) final.tasks ≡ ordered =
              sym (append_nil (map (λ t. t.request) final.tasks))
              ∙ ap (λ l. map (λ t. t.request) final.tasks ++ l) (sym all_started)
              ∙ paced.requests in
            let ids : map ids_of xs ≡ map request_ids ordered =
              gather-ids final.tasks xs paced.own all_ended
              ∙ map-map request_ids (λ t. t.request) final.tasks
              ∙ ap (map request_ids) requests_of in
            (
              rw (sorted_results) (
                  Perm.trans (Perm.map ids_of (sorted-perm ltb_ℤ (λ r. r.sequence_id) xs)) (
                    rw ids (
                      Perm.map request_ids (order-perm (λ r. r) policy start requests ordered e)))),
              rw (sorted_results)
                  (sorted-IsInOrder ltb_ℤ (λ r. r.sequence_id) integers-IsStrictOrder xs),
            ),
      )

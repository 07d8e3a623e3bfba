-- ===== src/Experiments/Correctness/Waiting.antt =====
-- About the queue depth that correctness.py reports.
use sloserve.Prelude.{
  if◌then◌else◌, ℤ, pos, ◌≤ℤ◌, ◌+ℤ◌, Bool, false, Option, none, some, List, [], ◌∷◌, count, All,
  ◌≡◌, refl, arith, ◌⊎◌, inl, inr, int_laws, suc, ℕ, ◌&&◌, ◌∙◌,
}
use sloserve.Prelude.Sorting.{sorted}
use sloserve.Prelude.Sorting.Laws.{sorted-IsInOrder, lex-IsStrictOrder}
use sloserve.Float.{Float, ◌≺◌, ◌≼◌, IsOrdered}
use sloserve.Float.Integers.{integers-IsStrictOrder}
use sloserve.Metrics.Records.{RequestRecord}
use sloserve.Experiments.Correctness.{events_of, max_queue_depth_of, add_events, sweep}
use sloserve.Experiments.Correctness.Depth.{
  later, depth_at, depth_at-sorted, sweep-upper, sweep-attained,
}

module _ ⦃f : Float⦄ where
  -- Enqueued by then and dispatched later. A request that is never dispatched does not count.
  abbrev pub is_waiting : f.F → f.F → Option f.F → Bool
  is_waiting t enqueue none = false
  is_waiting t enqueue (some dispatch) = (enqueue ≼ t) && (t ≺ dispatch)

  abbrev pub waiting_at : f.F → List RequestRecord → ℕ
  waiting_at t = count (λ r. is_waiting t r.enqueue_time_s r.dispatch_time_s)

  abbrev IsAfter : f.F → Option f.F → Type 0
  IsAfter enqueue none = Unit
  IsAfter enqueue (some dispatch) = (dispatch ≺ enqueue) ≡ false

  -- Dispatch does not precede enqueueing.
  abbrev pub IsDispatchedLater : RequestRecord → Type 0
  IsDispatchedLater r = IsAfter r.enqueue_time_s r.dispatch_time_s

  module _ (ordered : IsOrdered) where
    with_record :
        (t enqueue : f.F) (dispatch : Option f.F) (es : List (f.F × ℤ)) (n : ℕ)
        → IsAfter enqueue dispatch
        → depth_at t es ≡ pos n
        → depth_at t (add_events enqueue dispatch es)
          ≡ pos (if is_waiting t enqueue dispatch then suc n else n)
    unfolding ◌+ℤ◌
    with_record t enqueue none es n a h = h
    with_record t enqueue (some dispatch) es n a h =
        let order = ordered.cotrans t dispatch enqueue in rw h ground (arith, order)

    depth_at-events :
        (t : f.F) (rs : List RequestRecord)
        → All IsDispatchedLater rs
        → depth_at t (events_of rs) ≡ pos (waiting_at t rs)
    unfolding events_of
    depth_at-events t [] a = refl
    depth_at-events t (r ∷ rs) a =
        let here =
          with_record t r.enqueue_time_s r.dispatch_time_s (events_of rs) (waiting_at t rs) a.0
            (depth_at-events t rs a.1) in
        here ∙ ground arith

    -- The queue depth is the greatest number of requests that wait at one time for a dispatch that
    -- they get, each from its enqueueing until its dispatch: at no time do more of these wait, and it
    -- is zero or the number of them that wait at some time. Requests that leave the queue without a
    -- dispatch are not counted.
    pub max_queue_depth-greatest :
        (rs : List RequestRecord)
        → All IsDispatchedLater rs
        → ((t : f.F) → pos (waiting_at t rs) ≤ℤ max_queue_depth_of rs)
          × ((max_queue_depth_of rs ≡ pos 0)
              ⊎ ((t : f.F) × (max_queue_depth_of rs ≡ pos (waiting_at t rs))))
    unfolding max_queue_depth_of
    max_queue_depth-greatest rs a =
        let o =
          sorted-IsInOrder later (λ e. e) (lex-IsStrictOrder ordered integers-IsStrictOrder)
            (events_of rs) in
        let es = sorted later (λ e. e) (events_of rs) in
        let same : (t : f.F) → depth_at t es ≡ pos (waiting_at t rs) =
          λ t. depth_at-sorted t (events_of rs) ∙ depth_at-events t rs a in
        let upper : (t : f.F) → pos (waiting_at t rs) ≤ℤ sweep (pos 0) (pos 0) es = λ t.
          let bound = sweep-upper ordered t (pos 0) (pos 0) es (omega arith) o in
          let bound' = rw (same t) at bound in omega (int_laws, bound') in
        (
          upper,
          elim (sweep-attained ordered (pos 0) (pos 0) es (omega arith) o) [
            | inl e ↦ inl e
            | inr found ↦
                let (i, e, at, bound) = found in
                let bound' = rw (same e.0) at bound in
                inr (e.0, omega (int_laws, upper e.0, bound'))
          ],
        )

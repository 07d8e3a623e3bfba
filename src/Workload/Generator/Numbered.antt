-- ===== src/Workload/Generator/Numbered.antt =====
-- About the requests that workload/generator.py returns.
use sloserve.Prelude.{
  ℕ, ℤ, pos, suc, ◌+ℤ◌, eq_ℤ, not, String, Option, none, List, [], ◌∷◌, length, ok, ◌≡◌, refl,
  arith, >>=-eq-ok, >>-eq-ok, raise_if, subst, sym, ap, ◌∙◌, raise_if-ok, false,
}
use sloserve.Float.{Float, ◌⊕◌, ◌⊘◌, float}
use sloserve.Config.Workload.{WorkloadConfig}
use sloserve.Router.Models.{RequestEnvelope, construct, post_init}
use sloserve.Router.Models.Validity.{IsValid, construct-ok_iff}
use sloserve.Workload.Random.{Random}
use sloserve.Workload.Arrivals.{ArrivalSchedule, arrival_times}
use sloserve.Workload.Generator.{
  generate_one, generate_from, generate_requests, draw_lengths, schedule_or, sample_request_class,
  profile_for_class,
}

count_agrees : (m n : ℤ) → not (eq_ℤ m n) ≡ false → m ≡ n
count_agrees m n h = ground arith

module _ ⦃f : Float⦄ where
  abbrev pub HasDeadline : WorkloadConfig → f.F → RequestEnvelope → Type 0
  HasDeadline c t r =
      r.deadline_time_s
      ≡ t ⊕ (profile_for_class c r.request_class).end_to_end_slo_ms ⊘ float (pos 1000)

  -- Request `n`, which arrives at `t`.
  pub record IsRequest (c : WorkloadConfig) (n : ℕ) (t : f.F) (r : RequestEnvelope) : Type 0 where
    pub number : r.sequence_id ≡ pos n
    pub arrival : r.arrival_time_s ≡ t
    pub deadline : HasDeadline c t r
    pub unclipped : r.backend_max_output_tokens ≡ none
    pub valid : IsValid r

  -- The requests from `n` on, one for each time.
  abbrev pub AreNumbered : WorkloadConfig → ℕ → List f.F → List RequestEnvelope → Type 0
  AreNumbered c n [] [] = Unit
  AreNumbered c n (t ∷ ts) (r ∷ rs) = IsRequest c n t r × AreNumbered c (suc n) ts rs
  AreNumbered c n _ _ = ⊥

  length-numbered :
      (c : WorkloadConfig) (n : ℕ) (ts : List f.F) (rs : List RequestEnvelope)
      → AreNumbered c n ts rs
      → length rs ≡ length ts
  length-numbered c n [] [] a = refl
  length-numbered c n (t ∷ ts) (r ∷ rs) a = ap suc (length-numbered c (suc n) ts rs a.1)
  length-numbered c n [] (r ∷ rs) a = absurd a
  length-numbered c n (t ∷ ts) [] a = absurd a

  constructed : (r s : RequestEnvelope) → construct r ≡ ok s → (s ≡ r) × IsValid s
  unfolding construct
  constructed r s h =
      let (passed, last) = >>-eq-ok (post_init r) (ok r) h in
      let same : s ≡ r = cc in
      (same, subst IsValid (sym same) ((construct-ok_iff r).0 (rw passed refl)))

  module _ (g : Random) (round : f.F → ℤ) (format_id : ℕ → String) (c : WorkloadConfig) where
    generate_one_numbered :
        (n : ℕ) (t : f.F) (s s' : g.State) (r : RequestEnvelope)
        → generate_one g round format_id c n t s ≡ ok (r, s')
        → IsRequest c n t r
    unfolding generate_one profile_for_class
    generate_one_numbered n t s s' r h =
        let (request_class, s₁) = sample_request_class g round format_id c.interactive_fraction s in
        let profile = profile_for_class c request_class in
        let (tokens, s₂) = g.randint profile.input_tokens.minimum profile.input_tokens.maximum s₁ in
        let ((lengths, s₃), _, h₁) = >>=-eq-ok (draw_lengths g round format_id c profile s₂) _ h in
        let (made, built, last) = >>=-eq-ok (construct _) _ h₁ in
        let (same, valid) = constructed _ made built in
        let e : made ≡ r = cc in
        let is = sym e ∙ same in
        record {
          number = ap (λ q. q.sequence_id) is;
          arrival = ap (λ q. q.arrival_time_s) is;
          deadline = subst (HasDeadline c t) (sym is) refl;
          unclipped = ap (λ q. q.backend_max_output_tokens) is;
          valid = subst IsValid e valid;
        }

    generate_from-AreNumbered :
        (n : ℕ) (ts : List f.F) (s : g.State) (rs : List RequestEnvelope)
        → generate_from g round format_id c n ts s ≡ ok rs
        → AreNumbered c n ts rs
    unfolding generate_from
    generate_from-AreNumbered n [] s rs h = let e : [] ≡ rs = cc in subst (AreNumbered c n []) e tt
    generate_from-AreNumbered n (t ∷ ts) s rs h =
        let ((r, s'), made, h₁) = >>=-eq-ok (generate_one g round format_id c n t s) _ h in
        let (later, rest, last) =
          >>=-eq-ok (generate_from g round format_id c (suc n) ts s') _ h₁ in
        let first = generate_one_numbered n t s s' r made in
        let numbered = generate_from-AreNumbered (suc n) ts s' later rest in
        let e : r ∷ later ≡ rs = cc in subst (AreNumbered c n (t ∷ ts)) e (first, numbered)

    -- The generator asks the schedule for as many times as there are warmup and measured requests, and
    -- returns one request for each time, in their order: numbered from zero, valid and unclipped,
    -- arriving at that time and due the end-to-end SLO of its class after it.
    pub generate_requests-AreNumbered :
        (schedule : Option ArrivalSchedule) (rs : List RequestEnvelope)
        → generate_requests g round format_id c schedule ≡ ok rs
        → (chosen : ArrivalSchedule) × (times : List f.F) × (schedule_or g round format_id c
              schedule
            ≡ ok chosen)
          × (arrival_times g chosen (c.warmup_requests +ℤ c.total_requests) ≡ ok times)
          × AreNumbered c 0 times rs
          × (pos (length rs) ≡ c.warmup_requests +ℤ c.total_requests)
    unfolding generate_requests
    generate_requests-AreNumbered schedule rs h =
        let (chosen, is_chosen, h₁) = >>=-eq-ok (schedule_or g round format_id c schedule) _ h in
        let (times, drawn, h₂) =
          >>=-eq-ok (arrival_times g chosen (c.warmup_requests +ℤ c.total_requests)) _ h₁ in
        let (counted, k) =
          >>-eq-ok
            (raise_if (not (eq_ℤ (pos (length times)) (c.warmup_requests +ℤ c.total_requests))) _) _
            h₂ in
        let numbered = generate_from-AreNumbered 0 times (g.seeded c.random_seed) rs k in
        (
          chosen,
          times,
          is_chosen,
          drawn,
          numbered,
          rw (length-numbered c 0 times rs numbered) (
              count_agrees (pos (length times)) (c.warmup_requests +ℤ c.total_requests)
                (raise_if-ok _ _ counted)),
        )

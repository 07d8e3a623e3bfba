-- ===== src/Workload/Generator.antt =====
-- src/sloserve/workload/generator.py: the requests of a run, drawn from the configuration. The
-- built-in `round` and the format of the request ids are parameters.
pub mod Numbered
use sloserve.Prelude.{
  ℕ, ℤ, pos, zero, suc, ◌+ℤ◌, ltb_ℤ, eq_ℤ, Bool, true, false, not, String, Option, none, some, List,
  [], ◌∷◌, length, get_elem?, Result, ok, err, raise_if, value_error, index_error, ◌>>◌, ◌>>=◌,
  if◌then◌else◌,
}
use sloserve.Float.{Float, ◌≺◌, ◌⊕◌, ◌⊘◌, float}
use sloserve.Config.{LengthModel}
use sloserve.Config.Workload.{
  WorkloadConfig, RequestProfileConfig, RealisticLengthConfig, is_realistic,
}
use sloserve.Router.Models.{RequestEnvelope, RequestClass, interactive, batch, construct}
use sloserve.Workload.Random.{Random}
use sloserve.Workload.Arrivals.{ArrivalSchedule, arrival_times, arrival_schedule_from_config}

module _ ⦃f : Float⦄ where
  -- `_profile_for_class`
  unfoldable pub profile_for_class : WorkloadConfig → RequestClass → RequestProfileConfig
  profile_for_class c interactive = c.interactive
  profile_for_class c batch = c.batch

  -- What the two branches of the loop decide about the output.
  pub record Lengths : Type 0 where
    pub max_output_tokens : ℤ
    pub advertised_cap_tokens : Option ℤ
    pub prompt_kind : Option String
    pub force_exact_output_tokens : Bool

  abbrev or_index_error {ℓ} : {A : Type ℓ} → Option A → Result A
  or_index_error none = err (index_error "tuple index out of range")
  or_index_error (some a) = ok a

  abbrev or_unconfigured : Option RealisticLengthConfig → Result RealisticLengthConfig
  or_unconfigured none = err (value_error "realistic length model requires realistic_length")
  or_unconfigured (some c) = ok c

  -- `max(low, min(high, n))`
  abbrev pub clamp : ℤ → ℤ → ℤ → ℤ
  clamp low high n =
      let least = if ltb_ℤ n high then n else high in if ltb_ℤ low least then least else low

  module _ (g : Random) (round : f.F → ℤ) (format_id : ℕ → String) where
    -- `_sample_request_class`
    unfoldable pub sample_request_class : f.F → g.State → RequestClass × g.State
    sample_request_class interactive_fraction s =
        let (x, s') = g.random s in ((if x ≺ interactive_fraction then interactive else batch), s')

    unfoldable pub draw_realistic : RealisticLengthConfig → g.State → Result (Lengths × g.State)
    draw_realistic c s = do
      let (index, s₁) = g.choices (length c.kinds) c.kind_fractions s
      kind ← or_index_error (get_elem? c.kinds index)
      log_mu ← or_index_error (get_elem? c.log_mu_by_kind index)
      let (x, s₂) = g.lognormvariate log_mu c.log_sigma s₁
      ok (
        record {
          max_output_tokens = clamp c.clamp_min c.clamp_max (round x);
          advertised_cap_tokens = some c.advertised_cap_tokens;
          prompt_kind = some kind;
          force_exact_output_tokens = c.force_exact_output_tokens;
        },
        s₂,
      )

    unfoldable pub draw_lengths :
        WorkloadConfig → RequestProfileConfig → g.State → Result (Lengths × g.State)
    unfolding draw_realistic
    draw_lengths c profile s =
        if is_realistic c.length_model
        then (or_unconfigured c.realistic_length >>= λ realistic. draw_realistic realistic s)
        else do
          let (n, s') = g.randint profile.output_tokens.minimum profile.output_tokens.maximum s
          ok (
            record {
              max_output_tokens = n;
              advertised_cap_tokens = none;
              prompt_kind = none;
              force_exact_output_tokens = false;
            },
            s',
          )

    -- The body of the loop.
    unfoldable pub generate_one :
        WorkloadConfig → ℕ → f.F → g.State → Result (RequestEnvelope × g.State)
    unfolding draw_lengths sample_request_class profile_for_class
    generate_one c sequence_id arrival_time_s s = do
      let (request_class, s₁) = sample_request_class c.interactive_fraction s
      let profile = profile_for_class c request_class
      let (input_tokens, s₂) =
          g.randint profile.input_tokens.minimum profile.input_tokens.maximum s₁
      (lengths, s₃) ← draw_lengths c profile s₂
      request ← construct (record {
        request_id = format_id sequence_id;
        sequence_id = pos sequence_id;
        request_class = request_class;
        arrival_time_s = arrival_time_s;
        input_tokens = input_tokens;
        max_output_tokens = lengths.max_output_tokens;
        deadline_time_s = arrival_time_s ⊕ profile.end_to_end_slo_ms ⊘ float (pos 1000);
        advertised_cap_tokens = lengths.advertised_cap_tokens;
        prompt_kind = lengths.prompt_kind;
        backend_max_output_tokens = none;
        force_exact_output_tokens = lengths.force_exact_output_tokens;
      })
      ok (request, s₃)

    -- `for sequence_id, arrival_time_s in enumerate(arrival_times)`
    unfoldable pub generate_from :
        WorkloadConfig → ℕ → List f.F → g.State → Result (List RequestEnvelope)
    unfolding generate_one
    generate_from c sequence_id [] s = ok []
    generate_from c sequence_id (t ∷ ts) s = do
      (request, s') ← generate_one c sequence_id t s
      rest ← generate_from c (suc sequence_id) ts s'
      ok (request ∷ rest)

    abbrev pub schedule_or : WorkloadConfig → Option ArrivalSchedule → Result ArrivalSchedule
    schedule_or c none = arrival_schedule_from_config c
    schedule_or c (some schedule) = ok schedule

    unfoldable pub generate_requests :
        WorkloadConfig → Option ArrivalSchedule → Result (List RequestEnvelope)
    unfolding generate_from
    generate_requests c arrival_schedule = do
      schedule ← schedule_or c arrival_schedule
      let request_count = c.warmup_requests +ℤ c.total_requests
      times ← arrival_times g schedule request_count
      raise_if (not (eq_ℤ (pos (length times)) request_count))
          (value_error "arrival schedule returned an unexpected number of timestamps")
      generate_from c 0 times (g.seeded c.random_seed)

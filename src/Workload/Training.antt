-- ===== src/Workload/Training.antt =====
-- `build_training_pairs` of length_predictor.py: labelled requests from the generator under a seed of
-- their own.
use sloserve.Workload.Generator.Numbered.{AreNumbered, generate_requests-AreNumbered}
use sloserve.Prelude.{
  suc, [], ◌∷◌, length, ◌+ℤ◌, ◌≡◌, refl, ap, ◌∙◌, arith, subst, >>-eq-ok, >>=-eq-ok, ℕ, ℤ, pos,
  ltb_ℤ, not, String, none, List, map, Result, ok, raise_if, value_error, ◌>>=◌, ◌>>◌, Bool, ◌≡◌,
  length,
}
use sloserve.Float.{Float}
use sloserve.Config.Workload.{WorkloadConfig, is_realistic, validate_workload}
use sloserve.Router.Models.{RequestEnvelope}
use sloserve.Router.Models.Validity.{IsValid}
use sloserve.Workload.Random.{Random}
use sloserve.Workload.Generator.{generate_requests}
use sloserve.Workload.LengthPredictor.{LengthTrainingPair}

add_zero : (n : ℤ) → pos 0 +ℤ n ≡ n
unfolding ◌+ℤ◌
add_zero n = ground arith

module _ ⦃f : Float⦄ (isclose : f.F → f.F → Bool) (g : Random) (round : f.F → ℤ)
    (format_id : ℕ → String) where
  abbrev pub pair_of : RequestEnvelope → LengthTrainingPair
  pair_of r = record {
    request_class = r.request_class;
    input_tokens = r.input_tokens;
    prompt_kind = r.prompt_kind;
    advertised_cap_tokens = r.advertised_cap_tokens;
    target_tokens = r.max_output_tokens;
  }

  -- The generator's configuration for training.
  abbrev pub training_config : WorkloadConfig → ℤ → ℤ → WorkloadConfig
  training_config c train_seed count = record c {
    random_seed = train_seed;
    total_requests = count;
    warmup_requests = pos 0;
  }

  unfoldable pub build_training_pairs : WorkloadConfig → ℤ → ℤ → Result (List LengthTrainingPair)
  build_training_pairs c train_seed count = do
    raise_if (not (is_realistic c.length_model))
        (value_error "length predictor training requires a realistic workload")
    raise_if (ltb_ℤ train_seed (pos 0)) (value_error "train_seed must be non-negative")
    raise_if (ltb_ℤ count (pos 1)) (value_error "count must be positive")
    let training = training_config c train_seed count
    validate_workload isclose training
    requests ← generate_requests g round format_id training none
    ok (map pair_of requests)

  length-pairs : (rs : List RequestEnvelope) → length (map pair_of rs) ≡ length rs
  length-pairs [] = refl
  length-pairs (r ∷ rs) = ap suc (length-pairs rs)

  -- What a pair shows of its request: the visible features, and the true output length as the label.
  pub record IsLabelled (r : RequestEnvelope) (p : LengthTrainingPair) : Type 0 where
    pub same_class : p.request_class ≡ r.request_class
    pub same_input : p.input_tokens ≡ r.input_tokens
    pub same_kind : p.prompt_kind ≡ r.prompt_kind
    pub same_cap : p.advertised_cap_tokens ≡ r.advertised_cap_tokens
    pub label : p.target_tokens ≡ r.max_output_tokens
    pub valid : IsValid r

  abbrev pub AreLabelled : List RequestEnvelope → List LengthTrainingPair → Type 0
  AreLabelled [] [] = Unit
  AreLabelled (r ∷ rs) (p ∷ ps) = IsLabelled r p × AreLabelled rs ps
  AreLabelled _ _ = ⊥

  pairs-AreLabelled :
      (c : WorkloadConfig) (n : ℕ) (ts : List f.F) (rs : List RequestEnvelope)
      → AreNumbered c n ts rs
      → AreLabelled rs (map pair_of rs)
  pairs-AreLabelled c n [] [] a = tt
  pairs-AreLabelled c n (t ∷ ts) (r ∷ rs) a = (
    record {
      same_class = refl;
      same_input = refl;
      same_kind = refl;
      same_cap = refl;
      label = refl;
      valid = a.0.valid;
    },
    pairs-AreLabelled c (suc n) ts rs a.1,
  )
  pairs-AreLabelled c n [] (r ∷ rs) a = absurd a
  pairs-AreLabelled c n (t ∷ ts) [] a = absurd a

  -- The pairs are as many as were asked for, and they are those of the valid requests that the
  -- generator gives under the training seed, in their order: each shows the visible features of its
  -- request, and its label is the true output length.
  pub build_training_pairs_count :
      (c : WorkloadConfig) (train_seed count : ℤ) (ps : List LengthTrainingPair)
      → build_training_pairs c train_seed count ≡ ok ps
      → (requests : List RequestEnvelope) × (generate_requests g round format_id
            (training_config c train_seed count)
            none
          ≡ ok requests)
        × AreLabelled requests ps
        × (pos (length ps) ≡ count)
  unfolding build_training_pairs
  build_training_pairs_count c train_seed count ps h =
      let (_, h₁) = >>-eq-ok (raise_if (not (is_realistic c.length_model)) _) _ h in
      let (_, h₂) = >>-eq-ok (raise_if (ltb_ℤ train_seed (pos 0)) _) _ h₁ in
      let (_, h₃) = >>-eq-ok (raise_if (ltb_ℤ count (pos 1)) _) _ h₂ in
      let training = training_config c train_seed count in
      let (_, h₄) = >>-eq-ok (validate_workload isclose training) _ h₃ in
      let (requests, drawn, last) =
        >>=-eq-ok (generate_requests g round format_id training none) _ h₄ in
      let (_, times, _, _, numbered, long) =
        generate_requests-AreNumbered g round format_id training none requests drawn in
      let e : map pair_of requests ≡ ps = cc in
      (
        requests,
        drawn,
        subst (AreLabelled requests) e (pairs-AreLabelled training 0 times requests numbered),
        subst (λ l. pos (length l) ≡ count) e
            (ap pos (length-pairs requests) ∙ long ∙ add_zero count),
      )

-- ===== src/Workload/Quality.antt =====
-- The quality report of length_predictor.py. `statistics.fmean` and `math.sqrt` are parameters.
use sloserve.Prelude.{
  ℤ, String, Option, none, some, List, [], ◌∷◌, map, Result, ok, err, raise_if, value_error, ◌>>=◌,
  ◌>>◌, if◌then◌else◌,
}
use sloserve.Float.{Float, ◌≺◌, ◌⊖◌, ◌⊗◌, ◌⊘◌, eq, zero_f, float}
use sloserve.Router.Models.{RequestClass, or_else}
use sloserve.Workload.LengthPredictor.{LengthPredictor, LengthTrainingPair, predict, no_pairs}
use sloserve.Analysis.Queueing.{total}

module _ ⦃f : Float⦄ where
  unfoldable pub predict_advertised_cap : RequestClass → ℤ → Option String → Option ℤ → Result f.F
  predict_advertised_cap class input_tokens kind none =
      err (value_error "advertised-cap baseline requires advertised_cap_tokens")
  predict_advertised_cap class input_tokens kind (some cap) = ok (float cap)

  -- The list comprehension over the pairs.
  unfoldable pub naive_predictions : List LengthTrainingPair → Result (List f.F)
  unfolding predict_advertised_cap
  naive_predictions [] = ok []
  naive_predictions (p ∷ ps) = do
    cap ←
        predict_advertised_cap p.request_class p.input_tokens p.prompt_kind p.advertised_cap_tokens
    rest ← naive_predictions ps
    ok (cap ∷ rest)

  -- The built-in `abs`.
  abbrev pub abs : f.F → f.F
  abs x = if x ≺ zero_f then f.neg x else x

  -- The products and distances of two lists of one length.
  abbrev pub zip_with : (f.F → f.F → f.F) → List f.F → List f.F → List f.F
  zip_with g [] ys = []
  zip_with g (x ∷ xs) [] = []
  zip_with g (x ∷ xs) (y ∷ ys) = g x y ∷ zip_with g xs ys

  pub record Quality : Type 0 where
    pub learned_mae : f.F
    pub learned_pearson_corr : f.F
    pub naive_mae : f.F
    pub naive_pearson_corr : f.F

  module _ (fmean : List f.F → f.F) (sqrt : f.F → f.F) where
    unfoldable pub mean_absolute_error : List f.F → List f.F → f.F
    mean_absolute_error actual predicted =
        fmean (zip_with (λ observed estimate. abs (observed ⊖ estimate)) actual predicted)

    unfoldable pub pearson_corr : List f.F → List f.F → f.F
    pearson_corr actual predicted =
        let actual_centered = map (λ value. value ⊖ fmean actual) actual in
        let predicted_centered = map (λ value. value ⊖ fmean predicted) predicted in
        let squares = λ (xs : List f.F). total (map (λ value. value ⊗ value) xs) in
        let denominator = sqrt (squares actual_centered ⊗ squares predicted_centered) in
        if eq denominator zero_f
        then zero_f
        else total (zip_with f.mul actual_centered predicted_centered) ⊘ denominator

    unfoldable pub evaluate_predictor_quality :
        LengthPredictor → List LengthTrainingPair → Result Quality
    unfolding naive_predictions mean_absolute_error pearson_corr
    evaluate_predictor_quality predictor pairs = do
      raise_if (no_pairs pairs) (value_error "held-out evaluation pairs must not be empty")
      let actual = map (λ p. float p.target_tokens) pairs
      let learned =
          map
            (λ p.
              predict predictor p.request_class p.input_tokens p.prompt_kind
                (or_else p.advertised_cap_tokens p.target_tokens))
            pairs
      naive ← naive_predictions pairs
      ok (record {
        learned_mae = mean_absolute_error actual learned;
        learned_pearson_corr = pearson_corr actual learned;
        naive_mae = mean_absolute_error actual naive;
        naive_pearson_corr = pearson_corr actual naive;
      })

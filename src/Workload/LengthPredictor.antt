-- ===== src/Workload/LengthPredictor.antt =====
-- src/sloserve/workload/length_predictor.py: medians of the output length by request class and
-- prompt kind. Reading and writing the artifact's file is not modelled.
use text.Mathlib.Text.{◌==◌ as str_eq}
use sloserve.Prelude.{
  ℤ, pos, Bool, true, false, ◌&&◌, String, List, [], ◌∷◌, ◌++◌, Option, none, some, Result, ok,
  raise_if, value_error, ltb_ℤ, ◌>>◌, ◌>>=◌, if◌then◌else◌,
}
use sloserve.Float.{Float, ◌≼◌, zero_f}
use sloserve.Statistics.{median_int}
use sloserve.Router.Models.{RequestClass, value}

abbrev pub Bucket : Type 0
Bucket = String × Option String

abbrev pub kind_eq : Option String → Option String → Bool
kind_eq none none = true
kind_eq (some a) (some b) = str_eq a b
kind_eq _ _ = false

abbrev pub bucket_eq : Bucket → Bucket → Bool
bucket_eq (a, j) (b, k) = str_eq a b && kind_eq j k

-- A dictionary keyed by buckets, in the order of insertion.
module _ {V : Type 0} where
  unfoldable pub find : Bucket → List (Bucket × V) → Option V
  find k [] = none
  find k ((j, v) ∷ rest) = if bucket_eq j k then some v else find k rest

-- `dict.get(key, default)`
abbrev pub get_or : {V : Type 0} → Option V → V → V
get_or none d = d
get_or (some v) d = v

pub record LengthTrainingPair : Type 0 where
  pub request_class : RequestClass
  pub input_tokens : ℤ
  pub prompt_kind : Option String
  pub advertised_cap_tokens : Option ℤ
  pub target_tokens : ℤ

-- `buckets[key].append(target)` on a `defaultdict(list)`.
unfoldable pub append_to : Bucket → ℤ → List (Bucket × List ℤ) → List (Bucket × List ℤ)
append_to k n [] = (k, n ∷ []) ∷ []
append_to k n ((j, ns) ∷ rest) =
    let later = append_to k n rest in
    if bucket_eq j k then (j, ns ++ n ∷ []) ∷ rest else (j, ns) ∷ later

abbrev pub bucket_of : LengthTrainingPair → Bucket
bucket_of p = (value p.request_class, p.prompt_kind)

-- The loop over the pairs: the buckets and the targets so far.
unfoldable pub collect :
    List LengthTrainingPair
    → List (Bucket × List ℤ)
    → List ℤ
    → Result (List (Bucket × List ℤ) × List ℤ)
unfolding append_to
collect [] buckets targets = ok (buckets, targets)
collect (p ∷ ps) buckets targets =
    let rest =
      collect ps (append_to (bucket_of p) p.target_tokens buckets)
        (targets ++ p.target_tokens ∷ []) in
    raise_if (ltb_ℤ p.target_tokens (pos 1)) (value_error "training target_tokens must be positive")
    >> rest

module _ ⦃f : Float⦄ where
  pub record LengthPredictor : Type 0 where
    pub bucket_medians : List (Bucket × f.F)
    pub global_median : f.F

  abbrev pub no_buckets : List (Bucket × f.F) → Bool
  no_buckets [] = true
  no_buckets _ = false

  -- `__init__`
  unfoldable pub construct : List (Bucket × f.F) → f.F → Result LengthPredictor
  construct medians global = do
    raise_if (no_buckets medians) (value_error "length predictor requires at least one bucket")
    raise_if (global ≼ zero_f) (value_error "global median must be positive")
    ok (record { bucket_medians = medians; global_median = global })

  -- The dictionary comprehension over the buckets.
  unfoldable pub medians_of : List (Bucket × List ℤ) → Result (List (Bucket × f.F))
  medians_of [] = ok []
  medians_of ((k, ns) ∷ rest) = do m ← median_int ns; ms ← medians_of rest; ok ((k, m) ∷ ms)

  abbrev pub no_pairs : List LengthTrainingPair → Bool
  no_pairs [] = true
  no_pairs _ = false

  unfoldable pub train : List LengthTrainingPair → Result LengthPredictor
  train pairs = do
    raise_if (no_pairs pairs) (value_error "length predictor training pairs must not be empty")
    (buckets, targets) ← collect pairs [] []
    medians ← medians_of buckets
    global ← median_int targets
    construct medians global

  unfoldable pub predict : LengthPredictor → RequestClass → ℤ → Option String → ℤ → f.F
  unfolding find
  predict p class input_tokens kind advertised =
      get_or (find (value class, kind) p.bucket_medians) p.global_median

-- ===== src/Examples/Metrics.antt =====
-- Summaries and files of a small run.
use text.Mathlib.Text.{◌==◌ as str_eq}
use sloserve.Prelude.{
  ℤ, pos, ◌+ℤ◌, ◌≤ℤ◌, Bool, true, false, String, Option, none, some, List, [], ◌∷◌, length, map,
  All, Result, ok, err, value_error, ◌≡◌, refl, arith, ◌*ℤ◌,
}
use sloserve.Float.{◌≺◌}
use sloserve.Float.Hundredths.{hundredths, ceil}
use sloserve.Metrics.Records.{build_record, check_fields, check_timeline}
use sloserve.Analysis.Percentiles.{percentiles, half, most, nearly_all}
use sloserve.Analysis.Percentiles.Ranks.{percentiles-HasRank, HasRank}
use sloserve.Analysis.Attainment.{attainment}
use sloserve.Analysis.Metrics.{MetricsSummary, calculate_metrics, slo_by_class_of, total_ℤ}
use sloserve.Analysis.Metrics.Totals.{calculate_metrics_total}
use sloserve.Analysis.Metrics.Classes.{slo_by_class_split}
use sloserve.Metrics.Serialization.{Values, Mapping, record_to_mapping}
use sloserve.Metrics.Serialization.Fields.{IsFaithful}
use sloserve.Metrics.Jsonl.{read_request_records_jsonl, write_request_records_jsonl}
use sloserve.Metrics.Jsonl.RoundTrip.{
  read_request_records_jsonl-write_request_records_jsonl, IsJson,
}
use sloserve.Examples.Records.{ordered, ceiling, answered, refused, run, steady}

abbrev waits : List ℤ
waits = pos 300 ∷ pos 100 ∷ pos 200 ∷ []

percentiles-HasRank_example :
    (a b c : ℤ) × (percentiles ceil waits
      ≡ ok (record { p50 = some a; p95 = some b; p99 = some c }))
    × HasRank ceil waits half a
    × HasRank ceil waits most b
    × HasRank ceil waits nearly_all c
    × ((b ≺ a) ≡ false)
    × ((c ≺ b) ≡ false)
percentiles-HasRank_example = percentiles-HasRank ceil ordered ceiling waits (omega arith)

calculate_metrics_total_example :
    (s : MetricsSummary) × (calculate_metrics ceil run steady ≡ ok s)
    × (s.request_count ≡ pos (length run))
    × (s.success_count +ℤ s.error_count +ℤ s.timeout_count +ℤ s.cancelled_count +ℤ s.rejected_count
        ≡ s.request_count)
    × (s.slo_overall.met_count ≤ℤ s.success_count)
    × (s.realized_truncation_count ≤ℤ s.clip_applied_count)
    × (s.clip_applied_count ≤ℤ s.request_count)
calculate_metrics_total_example = calculate_metrics_total ceil ceiling ordered run steady

slo_by_class_split_example :
    (total_ℤ (map (λ s. s.1.request_count) (slo_by_class_of run steady))
      ≡ (attainment run steady).request_count)
    × (total_ℤ (map (λ s. s.1.met_count) (slo_by_class_of run steady))
        ≡ (attainment run steady).met_count)
    × All (λ s. pos 1 ≤ℤ s.1.request_count) (slo_by_class_of run steady)
slo_by_class_split_example = slo_by_class_split run steady

-- The values of JSON that a record holds.
data Scalar : Type 0 where
  null_value : Scalar
  text_value : String → Scalar
  int_value : ℤ → Scalar
  float_value : ℤ → Scalar

abbrev scalars : Values
scalars = record {
  V = Scalar;
  null = null_value;
  of_text = text_value;
  of_int = int_value;
  of_float = float_value;
  is_null_or_empty = is_null_or_empty;
  as_text = as_text;
  str = str;
  int = int;
  float = to_float;
}
  where
    is_null_or_empty : Scalar → Bool
    is_null_or_empty null_value = true
    is_null_or_empty (text_value s) = str_eq s ""
    is_null_or_empty _ = false

    as_text : Scalar → Option String
    as_text (text_value s) = some s
    as_text _ = none

    str : Scalar → String
    str (text_value s) = s
    str _ = "?"

    int : Scalar → Result ℤ
    int (int_value n) = ok n
    int _ = err (value_error "not an integer")

    to_float : Scalar → Result ℤ
    to_float (float_value x) = ok x
    to_float _ = err (value_error "not a float")

scalars-IsFaithful : IsFaithful scalars
scalars-IsFaithful = record {
  null_empty = refl;
  int_present = λ n. refl;
  float_present = λ x. refl;
  text_present = λ s. refl;
  as_text-of_text = λ s. refl;
  str-of_text = λ s. refl;
  int-of_int = λ n. refl;
  float-of_float = λ x h. refl;
}

abbrev any_hash : String → Bool
any_hash hash = true

answered-builds : build_record any_hash answered ≡ ok answered
unfolding build_record check_fields check_timeline ◌*ℤ◌
answered-builds = refl

refused-builds : build_record any_hash refused ≡ ok refused
unfolding build_record check_fields check_timeline ◌*ℤ◌
refused-builds = refl

-- Lines that hold the mapping itself.
abbrev dumps : Mapping scalars → Result (Mapping scalars)
dumps = ok

abbrev loads : Mapping scalars → Result (Option (Mapping scalars))
loads line = ok (some line)

abbrev is_blank : Mapping scalars → Bool
is_blank line = false

lines-IsJson : IsJson scalars scalars-IsFaithful any_hash dumps loads is_blank
lines-IsJson = record { line = λ r w. (record_to_mapping scalars r, refl, refl, refl) }

read_request_records_jsonl-write_request_records_jsonl_example :
    (lines : List (Mapping scalars)) × (write_request_records_jsonl scalars dumps loads is_blank
        any_hash
        (answered ∷ refused ∷ [])
      ≡ ok lines)
    × (read_request_records_jsonl scalars dumps loads is_blank any_hash lines
        ≡ ok (answered ∷ refused ∷ []))
read_request_records_jsonl-write_request_records_jsonl_example =
    read_request_records_jsonl-write_request_records_jsonl scalars scalars-IsFaithful any_hash dumps
      loads is_blank lines-IsJson (answered ∷ refused ∷ []) (answered-builds, (refused-builds, tt))

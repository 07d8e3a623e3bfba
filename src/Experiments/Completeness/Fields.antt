-- ===== src/Experiments/Completeness/Fields.antt =====
-- About the report of experiments/benchmark.py.
use sloserve.Prelude.{
  ◌≡◌, refl, String, Option, none, some, List, [], ◌∷◌, All, map, Result, ok, ap, ◌⊎◌, inl, inr,
}
use sloserve.Float.{Float}
use sloserve.Analysis.Attainment.{AttainmentSummary}
use sloserve.Analysis.Metrics.{MetricsSummary}
use sloserve.Experiments.Completeness.{
  ReportField, CompletenessReport, GpuSample, Entries, build_field, value_field, missing_field,
  optional_field, attainment_field, class_field, power_field, collect, gpu_entries, group_entries,
  count_entries, class_entries, metric_entries, build_completeness_report, ReportValue,
}

module _ ⦃f : Float⦄ where
  -- A value or a reason, and not both.
  abbrev pub IsExact : ReportField → Type 0
  IsExact field =
      (field.missing_reason ≡ none) × ((v : ReportValue) × (field.value ≡ some v))
      ⊎ (field.value ≡ none) × ((s : String) × (field.missing_reason ≡ some s))

  abbrev IsBuilt : Result ReportField → Type 0
  IsBuilt m = (field : ReportField) × (m ≡ ok field) × IsExact field

  value-IsBuilt : (v : ReportValue) → IsBuilt (value_field v)
  unfolding value_field build_field
  value-IsBuilt v = (record { value = some v; missing_reason = none }, refl, inl (refl, (v, refl)))

  missing-IsBuilt : (s : String) → IsBuilt (missing_field s)
  unfolding missing_field build_field
  missing-IsBuilt s =
      (record { value = none; missing_reason = some s }, refl, inr (refl, (s, refl)))

  optional-IsBuilt : (o : Option f.F) (s : String) → IsBuilt (optional_field o s)
  unfolding optional_field
  optional-IsBuilt none s = missing-IsBuilt s
  optional-IsBuilt (some x) s = value-IsBuilt _

  class-IsBuilt : (o : Option AttainmentSummary) → IsBuilt (class_field o)
  unfolding class_field attainment_field
  class-IsBuilt none = missing-IsBuilt _
  class-IsBuilt (some s) = value-IsBuilt _

  power-IsBuilt : (xs : List f.F) → IsBuilt (power_field xs)
  unfolding power_field
  power-IsBuilt [] = missing-IsBuilt _
  power-IsBuilt (x ∷ xs) = value-IsBuilt _

  collect-IsBuilt :
      (entries : Entries)
      → All (λ e. IsBuilt e.1) entries
      → (fields : List (String × ReportField)) × (collect entries ≡ ok fields)
        × (map (λ e. e.0) fields ≡ map (λ e. e.0) entries)
        × All (λ e. IsExact e.1) fields
  unfolding collect
  collect-IsBuilt [] a = ([], refl, refl, tt)
  collect-IsBuilt ((name, m) ∷ entries) ((field, e, exact), rest) =
      let (fields, k, names, all) = collect-IsBuilt entries rest in
      ((name, field) ∷ fields, rw (e, k) refl, ap (λ ns. name ∷ ns) names, (exact, all))

  -- One component for each entry.
  metrics-IsBuilt : (m : MetricsSummary) → All (λ e. IsBuilt e.1) (metric_entries m)
  unfolding metric_entries group_entries count_entries class_entries attainment_field
  metrics-IsBuilt m = (
    optional-IsBuilt _ _,
    (
      optional-IsBuilt _ _,
      (
        optional-IsBuilt _ _,
        (
          optional-IsBuilt _ _,
          (
            optional-IsBuilt _ _,
            (
              optional-IsBuilt _ _,
              (
                optional-IsBuilt _ _,
                (
                  optional-IsBuilt _ _,
                  (
                    optional-IsBuilt _ _,
                    (
                      optional-IsBuilt _ _,
                      (
                        optional-IsBuilt _ _,
                        (
                          optional-IsBuilt _ _,
                          (
                            value-IsBuilt _,
                            (
                              optional-IsBuilt _ _,
                              (
                                value-IsBuilt _,
                                (
                                  value-IsBuilt _,
                                  (
                                    value-IsBuilt _,
                                    (
                                      value-IsBuilt _,
                                      (
                                        value-IsBuilt _,
                                        (
                                          value-IsBuilt _,
                                          (
                                            optional-IsBuilt _ _,
                                            (
                                              value-IsBuilt _,
                                              (
                                                optional-IsBuilt _ _,
                                                (
                                                  optional-IsBuilt _ _,
                                                  (
                                                    value-IsBuilt _,
                                                    (
                                                      optional-IsBuilt _ _,
                                                      (
                                                        optional-IsBuilt _ _,
                                                        (
                                                          value-IsBuilt _,
                                                          (
                                                            value-IsBuilt _,
                                                            (
                                                            value-IsBuilt _,
                                                            (
                                                            class-IsBuilt _,
                                                            (class-IsBuilt _, tt),
                                                            ),
                                                            ),
                                                          ),
                                                        ),
                                                      ),
                                                    ),
                                                  ),
                                                ),
                                              ),
                                            ),
                                          ),
                                        ),
                                      ),
                                    ),
                                  ),
                                ),
                              ),
                            ),
                          ),
                        ),
                      ),
                    ),
                  ),
                ),
              ),
            ),
          ),
        ),
      ),
    ),
  )

  gpu-IsBuilt :
      (reason : String) (samples : List GpuSample)
      → All (λ e. IsBuilt e.1) (gpu_entries reason samples)
  unfolding gpu_entries
  gpu-IsBuilt reason [] = (missing-IsBuilt _, (missing-IsBuilt _, (missing-IsBuilt _, tt)))
  gpu-IsBuilt reason (s ∷ ss) = (value-IsBuilt _, (value-IsBuilt _, (power-IsBuilt _, tt)))

  -- A report is built of any summary and samples, with a field for each name, and each field has
  -- either a value or the reason why there is none.
  pub build_completeness_report_total :
      (note reason : String) (m : MetricsSummary) (samples : List GpuSample)
      → (report : CompletenessReport) × (build_completeness_report note reason m samples
          ≡ ok report)
        × (map (λ e. e.0) report.metrics ≡ map (λ e. e.0) (metric_entries m))
        × (map (λ e. e.0) report.gpu ≡ map (λ e. e.0) (gpu_entries reason samples))
        × All (λ e. IsExact e.1) report.metrics
        × All (λ e. IsExact e.1) report.gpu
  unfolding build_completeness_report
  build_completeness_report_total note reason m samples =
      let (metrics, e, names, exact) = collect-IsBuilt (metric_entries m) (metrics-IsBuilt m) in
      let (gpu, k, gpu_names, gpu_exact) =
        collect-IsBuilt (gpu_entries reason samples) (gpu-IsBuilt reason samples) in
      (
        record {
          scope_note = note;
          request_scope = "formal requests only; warmup records are persisted but excluded";
          metrics = metrics;
          gpu = gpu;
        },
        rw (e, k) refl,
        names,
        gpu_names,
        exact,
        gpu_exact,
      )

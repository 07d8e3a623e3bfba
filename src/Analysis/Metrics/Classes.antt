-- ===== src/Analysis/Metrics/Classes.antt =====
-- About the summaries of the classes in analysis/metrics.py.
use sloserve.Prelude.{
  pos, ◌+◌, ◌+ℤ◌, ◌≤ℤ◌, Bool, true, false, List, [], ◌∷◌, any, length, select, count, map, ◌≡◌,
  refl, arith, ap, ◌≤◌, All, Bool-cases, inl, inr, ◌≤◌,
}
use sloserve.Float.{Float}
use sloserve.Config.Workload.{WorkloadConfig}
use sloserve.Router.Models.{RequestClass, interactive, batch}
use sloserve.Metrics.Records.{RequestRecord}
use sloserve.Analysis.Attainment.{attainment, meets_slo}
use sloserve.Analysis.Metrics.{is_class, slo_by_class_of, total_ℤ}

module _ ⦃f : Float⦄ where
  abbrev of_class : RequestClass → List RequestRecord → List RequestRecord
  of_class class = select (λ r. is_class r.request_class class)

  classes_split :
      (rs : List RequestRecord)
      → length (of_class interactive rs) + length (of_class batch rs) ≡ length rs
  classes_split [] = refl
  classes_split (r ∷ rs) = ground (arith, classes_split rs)

  met_split :
      (p : RequestRecord → Bool) (rs : List RequestRecord)
      → count p (of_class interactive rs) + count p (of_class batch rs) ≡ count p rs
  met_split p [] = refl
  met_split p (r ∷ rs) = ground (arith, met_split p rs)

  absent :
      (class : RequestClass) (rs : List RequestRecord)
      → any (λ r. is_class r.request_class class) rs ≡ false
      → of_class class rs ≡ []
  absent class [] h = refl
  absent class (r ∷ rs) h = ground (arith, absent class rs)

  present :
      (class : RequestClass) (rs : List RequestRecord)
      → any (λ r. is_class r.request_class class) rs ≡ true
      → 1 ≤ length (of_class class rs)
  present class [] h = absurd (cc)
  present class (r ∷ rs) h = ground (arith, present class rs)

  -- The summaries of the classes split the overall one: each counts at least one request, and they
  -- add up to its requests and to those that met their objectives.
  pub slo_by_class_split :
      (records : List RequestRecord) (c : WorkloadConfig)
      → (total_ℤ (map (λ s. s.1.request_count) (slo_by_class_of records c))
          ≡ (attainment records c).request_count)
        × (total_ℤ (map (λ s. s.1.met_count) (slo_by_class_of records c))
            ≡ (attainment records c).met_count)
        × All (λ s. pos 1 ≤ℤ s.1.request_count) (slo_by_class_of records c)
  unfolding slo_by_class_of attainment ◌+ℤ◌
  slo_by_class_split records c =
      let counts = classes_split records in
      let mets = met_split (meets_slo c) records in
      let here = any (λ r. is_class r.request_class interactive) records in
      let there = any (λ r. is_class r.request_class batch) records in
      elim (Bool-cases here) [
        | inl e ↦ elim (Bool-cases there) [
          | inl k ↦
              rw (e, k)
                (
                  ground (arith, counts),
                  ground (arith, mets),
                  (
                    ground (arith, present interactive records e),
                    (ground (arith, present batch records k), tt),
                  ),
                )
          | inr k ↦
              let none_left = absent batch records k in
              let no_length = ap length none_left in
              let no_met = ap (count (meets_slo c)) none_left in
              rw (e, k)
                (
                  ground (arith, counts, no_length),
                  ground (arith, mets, no_met),
                  (ground (arith, present interactive records e), tt),
                )
        ]
        | inr e ↦ elim (Bool-cases there) [
          | inl k ↦
              let none_left = absent interactive records e in
              let no_length = ap length none_left in
              let no_met = ap (count (meets_slo c)) none_left in
              rw (e, k)
                (
                  ground (arith, counts, no_length),
                  ground (arith, mets, no_met),
                  (ground (arith, present batch records k), tt),
                )
          | inr k ↦
              let no_length₁ = ap length (absent interactive records e) in
              let no_length₂ = ap length (absent batch records k) in
              let no_met₁ = ap (count (meets_slo c)) (absent interactive records e) in
              let no_met₂ = ap (count (meets_slo c)) (absent batch records k) in
              rw (e, k)
                (
                  ground (arith, counts, no_length₁, no_length₂),
                  ground (arith, mets, no_met₁, no_met₂),
                  tt,
                )
        ]
      ]

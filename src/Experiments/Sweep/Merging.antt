-- ===== src/Experiments/Sweep/Merging.antt =====
-- About the merge of mappings in experiments/sweep.py.
use text.Mathlib.Text.{◌==◌ as str_eq}
use text.Mathlib.TextEquality.{eq_iff}
use sloserve.Prelude.{
  true, String, Option, none, some, ◌≡◌, refl, arith, Bool-cases, inl, inr, if◌then◌else◌, sym, ◌∙◌,
  subst, ap,
}
use sloserve.Experiments.Sweep.{
  Value, Entries, end_of, entry, get, put, merge_mappings, merged_value,
}

-- A mapping holds a key once.
abbrev pub IsUnique : Entries → Type 0
IsUnique end_of = Unit
IsUnique (entry key value rest) = (get key rest ≡ none) × IsUnique rest

-- What the merge makes of a value of the base and one of the overrides.
abbrev pub merged_entry : Option Value → Option Value → Option Value
merged_entry current none = current
merged_entry current (some value) = some (merged_value current value)

str_eq-cong : (j k key : String) → str_eq j k ≡ true → str_eq j key ≡ str_eq k key
str_eq-cong j k key h = ap (λ s. str_eq s key) ((eq_iff j k).0 h)

str_eq-join : (j k key : String) → str_eq j key ≡ true → str_eq k key ≡ true → str_eq j k ≡ true
str_eq-join j k key h l = (eq_iff j k).1 ((eq_iff j key).0 h ∙ sym ((eq_iff k key).0 l))

get-put :
    (key k : String) (v : Value) (e : Entries)
    → get key (put k v e) ≡ (if str_eq k key then some v else get key e)
get-put key k v end_of = refl
get-put key k v (entry j w rest) =
    ground (arith, get-put key k v rest, str_eq-cong j k key, str_eq-join j k key)

-- A merge keeps what is not overridden, replaces or adds what is, and merges where both are mappings.
pub get-merge_mappings :
    (key : String) (base overrides : Entries)
    → IsUnique overrides
    → get key (merge_mappings base overrides) ≡ merged_entry (get key base) (get key overrides)
unfolding merge_mappings
get-merge_mappings key base end_of u = refl
get-merge_mappings key base (entry k v rest) u =
    let base' = put k (merged_value (get k base) v) base in
    let step = get-merge_mappings key base' rest u.1 in
    let written = get-put key k (merged_value (get k base) v) base in
    elim (Bool-cases (str_eq k key)) [
      | inl e ↦
          let same : k ≡ key = (eq_iff k key).0 e in
          let once : get key rest ≡ none = subst (λ s. get s rest ≡ none) same u.0 in
          let written' : get key base' ≡ some (merged_value (get k base) v) = written ∙ rw e refl in
          let all =
            step
            ∙ ap (merged_entry (get key base')) once
            ∙ written'
            ∙ ap (λ s. some (merged_value (get s base) v)) same in
          all ∙ rw e refl
      | inr e ↦
          let written' : get key base' ≡ get key base = written ∙ rw e refl in
          let all = step ∙ ap (λ o. merged_entry o (get key rest)) written' in all ∙ rw e refl
    ]

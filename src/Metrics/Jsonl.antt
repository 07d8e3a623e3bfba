-- ===== src/Metrics/Jsonl.antt =====
-- src/sloserve/metrics/serialization.py: the files of records, as lists of lines or of rows.
-- A line as `json` reads it, `json.dumps`, `json.loads`, the blank-line test, `csv` and `pathlib` are parameters.
pub mod RoundTrip
use text.Mathlib.Text.{◌==◌ as str_eq}
use sloserve.Prelude.{
  Bool, true, false, not, ◌&&◌, ◌||◌, String, Option, none, some, List, [], ◌∷◌, map, Result, ok,
  err, raise_if, value_error, ◌>>◌, ◌>>=◌, if◌then◌else◌,
}
use sloserve.Float.{Float}
use sloserve.Metrics.Records.{RequestRecord}
use sloserve.Metrics.Serialization.{
  Values, Mapping, record_to_mapping, record_from_mapping, field_names, legacy_field_names,
}

-- `except (KeyError, TypeError, ValueError, ...) as exc: raise ValueError(message) from exc`
abbrev pub reraise {ℓ} : {A : Type ℓ} → String → Result A → Result A
reraise message (err e) = err (value_error message)
reraise message (ok a) = ok a

abbrev pub same_names : List String → List String → Bool
same_names [] [] = true
same_names (x ∷ xs) (y ∷ ys) = str_eq x y && same_names xs ys
same_names _ _ = false

module _ ⦃f : Float⦄ (v : Values) where
  abbrev as_object : Option (Mapping v) → Result (Mapping v)
  as_object none = err (value_error "record must be a JSON object")
  as_object (some data_) = ok data_

  -- `json.loads` gives no mapping for a value that is not an object.
  module _ {Line : Type 0} (dumps : Mapping v → Result Line)
      (loads : Line → Result (Option (Mapping v))) (is_blank : Line → Bool)
      (fullmatch : String → Bool) where
    -- `write_request_records_jsonl`
    unfoldable pub write_request_records_jsonl : List RequestRecord → Result (List Line)
    write_request_records_jsonl [] = ok []
    write_request_records_jsonl (r ∷ rs) = do
      line ← dumps (record_to_mapping v r)
      rest ← write_request_records_jsonl rs
      ok (line ∷ rest)

    abbrev pub read_line : Line → Result RequestRecord
    read_line line =
        reraise "invalid request record at JSONL line"
          (loads line >>= as_object >>= record_from_mapping v fullmatch)

    -- `read_request_records_jsonl`
    unfoldable pub read_request_records_jsonl : List Line → Result (List RequestRecord)
    read_request_records_jsonl [] = ok []
    read_request_records_jsonl (line ∷ lines) = do
      raise_if (is_blank line) (value_error "blank JSONL line")
      r ← read_line line
      rest ← read_request_records_jsonl lines
      ok (r ∷ rest)

  -- `write_request_records_csv`: the header and the rows.
  unfoldable pub write_request_records_csv : List RequestRecord → List String × List (Mapping v)
  write_request_records_csv records = (field_names, map (record_to_mapping v) records)

  module _ (fullmatch : String → Bool) where
    unfoldable pub read_rows : List (Mapping v) → Result (List RequestRecord)
    read_rows [] = ok []
    read_rows (row ∷ rows) = do
      r ← record_from_mapping v fullmatch row
      rest ← read_rows rows
      ok (r ∷ rest)

    -- `read_request_records_csv`
    unfoldable pub read_request_records_csv :
        List String × List (Mapping v) → Result (List RequestRecord)
    unfolding read_rows
    read_request_records_csv (fieldnames, rows) = do
      raise_if (not (same_names fieldnames field_names || same_names fieldnames legacy_field_names))
          (value_error "CSV header does not match the request record schema")
      reraise "invalid request record in CSV" (read_rows rows)

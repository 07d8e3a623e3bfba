-- ===== src/Metrics/Jsonl/RoundTrip.antt =====
-- About the files of metrics/serialization.py.
use sloserve.Prelude.{
  Bool, false, String, Option, some, List, [], ◌∷◌, map, All, Result, ok, ◌≡◌, refl,
}
use sloserve.Float.{Float}
use sloserve.Metrics.Records.{RequestRecord, build_record}
use sloserve.Metrics.Serialization.{Values, Mapping, record_to_mapping}
use sloserve.Metrics.Serialization.Fields.{IsFaithful, IsWritable, build_record-IsWritable}
use sloserve.Metrics.Serialization.RoundTrip.{record_from_mapping-record_to_mapping}
use sloserve.Metrics.Jsonl.{
  write_request_records_jsonl, read_request_records_jsonl, write_request_records_csv,
  read_request_records_csv, read_rows,
}

module _ ⦃f : Float⦄ (v : Values) (faithful : IsFaithful v) (fullmatch : String → Bool) where
  abbrev pub Accepted : RequestRecord → Type 0
  Accepted r = build_record fullmatch r ≡ ok r

  read_rows-written :
      (rs : List RequestRecord)
      → All Accepted rs
      → read_rows v fullmatch (map (record_to_mapping v) rs) ≡ ok rs
  unfolding read_rows
  read_rows-written [] a = refl
  read_rows-written (r ∷ rs) a =
      rw
        (record_from_mapping-record_to_mapping v faithful fullmatch r a.0, read_rows-written rs a.1)
        refl

  -- The CSV file of records that the constructor accepts is read back as those records.
  pub read_request_records_csv-write_request_records_csv :
      (rs : List RequestRecord)
      → All Accepted rs
      → read_request_records_csv v fullmatch (write_request_records_csv v rs) ≡ ok rs
  unfolding read_request_records_csv write_request_records_csv
  read_request_records_csv-write_request_records_csv rs a = rw (read_rows-written rs a) refl

  module _ {Line : Type 0} (dumps : Mapping v → Result Line)
      (loads : Line → Result (Option (Mapping v))) (is_blank : Line → Bool) where
    -- What `json` promises of a mapping without infinite floats: one line, which parses to it.
    pub record IsJson : Type 0 where
      pub line :
          (r : RequestRecord)
          → IsWritable r
          → (text : Line) × (dumps (record_to_mapping v r) ≡ ok text)
            × (is_blank text ≡ false)
            × (loads text ≡ ok (some (record_to_mapping v r)))

    -- The JSONL file of records that the constructor accepts is written, and read back as they were.
    pub read_request_records_jsonl-write_request_records_jsonl :
        IsJson
        → (rs : List RequestRecord) → All Accepted rs
        → (lines : List Line) × (write_request_records_jsonl v dumps loads is_blank fullmatch rs
            ≡ ok lines)
          × (read_request_records_jsonl v dumps loads is_blank fullmatch lines ≡ ok rs)
    unfolding write_request_records_jsonl read_request_records_jsonl
    read_request_records_jsonl-write_request_records_jsonl json [] a = ([], refl, refl)
    read_request_records_jsonl-write_request_records_jsonl json (r ∷ rs) a =
        let (text, e, blank, back) = json.line r (build_record-IsWritable fullmatch r r a.0) in
        let (lines, written, read) =
          read_request_records_jsonl-write_request_records_jsonl json rs a.1 in
        let one = record_from_mapping-record_to_mapping v faithful fullmatch r a.0 in
        (text ∷ lines, rw (e, written) refl, rw (blank, back, one, read) refl)

-- ===== src/Metrics/Serialization/RoundTrip.antt =====
-- About the round trip of a record through metrics/serialization.py.
use sloserve.Prelude.{Bool, String, none, [], ok, ◌≡◌, refl, >>-eq-ok}
use sloserve.Float.{Float}
use sloserve.Router.Models.{value}
use sloserve.Metrics.Records.{RequestRecord, build_record, check_fields, check_timeline}
use sloserve.Metrics.Serialization.{
  Values, record_to_mapping, record_from_mapping, legacy_mapping, status_value, policy_value,
}
use sloserve.Metrics.Serialization.Fields.{
  IsFaithful, build_record-IsWritable, present-int, present-float, present-text, check_fields-parts,
  class-member, status-member, policy-member,
}

module _ ⦃f : Float⦄ where
  -- A record without the fields that were added.
  abbrev pub legacy_part : RequestRecord → RequestRecord
  legacy_part r = record r {
    requested_output_tokens = none;
    backend_max_output_tokens = none;
    finish_reason = none;
  }

module _ ⦃f : Float⦄ (v : Values) (faithful : IsFaithful v) where
  -- A record that its constructor accepts is read back from its mapping as it was.
  pub record_from_mapping-record_to_mapping :
      (fullmatch : String → Bool) (r : RequestRecord)
      → build_record fullmatch r ≡ ok r
      → record_from_mapping v fullmatch (record_to_mapping v r) ≡ ok r
  unfolding record_from_mapping record_to_mapping
  record_from_mapping-record_to_mapping fullmatch r h =
      let w = build_record-IsWritable fullmatch r r h in
      rw
        (
          faithful.int-of_int r.sequence_id,
          faithful.as_text-of_text (value r.request_class),
          class-member r.request_class,
          faithful.float-of_float r.arrival_time_s w.arrival,
          faithful.float-of_float r.enqueue_time_s w.enqueue,
          present-float v faithful r.dispatch_time_s w.dispatch,
          present-float v faithful r.first_token_time_s w.first_token,
          faithful.float-of_float r.completion_time_s w.completion,
          faithful.int-of_int r.input_tokens,
          faithful.int-of_int r.output_tokens,
          faithful.as_text-of_text (status_value r.status),
          status-member r.status,
          present-text v faithful r.error_type w.error_type,
          faithful.as_text-of_text (policy_value r.policy_name),
          policy-member r.policy_name,
          faithful.int-of_int r.repetition_index,
          present-int v faithful r.requested_output_tokens,
          present-int v faithful r.backend_max_output_tokens,
          present-text v faithful r.finish_reason w.finish_reason,
          faithful.str-of_text r.request_id,
          faithful.str-of_text r.config_hash,
          faithful.str-of_text r.env_version,
        )
        h

  legacy_part-builds :
      (fullmatch : String → Bool) (r : RequestRecord)
      → build_record fullmatch r ≡ ok r
      → build_record fullmatch (legacy_part r) ≡ ok (legacy_part r)
  unfolding build_record check_fields check_timeline
  legacy_part-builds fullmatch r h =
      let (fields, rest) = >>-eq-ok (check_fields fullmatch r) _ h in
      let (timeline, _) = >>-eq-ok (check_timeline r) _ rest in
      let parts = check_fields-parts fullmatch r fields in
      let (a, b, c, d, e, g, i, j, _) = parts in
      let timeline' : check_timeline (legacy_part r) ≡ ok tt = timeline in
      rw (a, b, c, d, e, g, i, j, timeline') refl

  -- A mapping of the legacy fields alone is read as the record with the added fields null.
  pub record_from_mapping-legacy_mapping :
      (fullmatch : String → Bool) (r : RequestRecord)
      → build_record fullmatch r ≡ ok r
      → record_from_mapping v fullmatch (legacy_mapping v r []) ≡ ok (legacy_part r)
  unfolding record_from_mapping
  record_from_mapping-legacy_mapping fullmatch r h =
      let w = build_record-IsWritable fullmatch r r h in
      rw
        (
          faithful.int-of_int r.sequence_id,
          faithful.as_text-of_text (value r.request_class),
          class-member r.request_class,
          faithful.float-of_float r.arrival_time_s w.arrival,
          faithful.float-of_float r.enqueue_time_s w.enqueue,
          present-float v faithful r.dispatch_time_s w.dispatch,
          present-float v faithful r.first_token_time_s w.first_token,
          faithful.float-of_float r.completion_time_s w.completion,
          faithful.int-of_int r.input_tokens,
          faithful.int-of_int r.output_tokens,
          faithful.as_text-of_text (status_value r.status),
          status-member r.status,
          present-text v faithful r.error_type w.error_type,
          faithful.as_text-of_text (policy_value r.policy_name),
          policy-member r.policy_name,
          faithful.int-of_int r.repetition_index,
          faithful.str-of_text r.request_id,
          faithful.str-of_text r.config_hash,
          faithful.str-of_text r.env_version,
        )
        (legacy_part-builds fullmatch r h)

-- ===== src/Workload/HttpBackend/Stream.antt =====
-- About the telemetry of a call of workload/http_backend.py.
use text.Mathlib.Text.{◌==◌ as str_eq}
use sloserve.Prelude.{
  ℕ, ℤ, suc, ◌+◌, ◌||◌, String, Option, none, some, List, [], ◌∷◌, count, any, Result, ok, err, ◌≡◌,
  refl, arith, Option-cases, if-cases, inl, inr, ap, ◌∙◌, subst, if◌then◌else◌,
}
use sloserve.Float.{Float}
use sloserve.Workload.HttpBackend.{
  JsonTree, Piece, line, broken, streamed, HttpCallTelemetry, Call, new_call, content_of,
  finish_reason_of, usage_of, on_content, on_finish_reason, on_usage, on_chunk, decode, handle_line,
  stream, send, later_of, or_count, is_given, handle_chunk, resume, with_status,
}

later_of_assoc {ℓ} :
    {A : Type ℓ} (a b c : Option A) → later_of (later_of a b) c ≡ later_of a (later_of b c)
later_of_assoc a b none = refl
later_of_assoc a b (some c) = refl

later_of-none {ℓ} : {A : Type ℓ} (a : Option A) → later_of none a ≡ a
later_of-none none = refl
later_of-none (some a) = refl

final_count : (o p : Option ℤ) (m n : ℕ) → o ≡ p → m ≡ 0 + n → or_count o m ≡ or_count p n
final_count o p m n e h = ground arith

module _ ⦃f : Float⦄ (json : JsonTree) where
  abbrev Chunk : Type 0
  Chunk = String → Option json.J

  abbrev pub last_given {ℓ} : {A : Type ℓ} → (Chunk → Option A) → List Chunk → Option A
  last_given g [] = none
  last_given g (chunk ∷ chunks) = later_of (g chunk) (last_given g chunks)

  abbrev pub deltas : List Chunk → ℕ
  deltas = count (λ chunk. is_given (content_of json chunk))

  -- The chunks up to the end mark, where the client breaks nothing and each decodes to an object.
  abbrev add_chunk : Result Chunk → Option (List Chunk) → Option (List Chunk)
  add_chunk (ok chunk) (some chunks) = some (chunk ∷ chunks)
  add_chunk _ _ = none

  abbrev add_data : Option String → Option (List Chunk) → Option (List Chunk)
  add_data none rest = rest
  add_data (some data_) rest =
      if str_eq data_ "[DONE]" then some [] else add_chunk (decode json data_) rest

  abbrev pub chunks_of : (String → Option String) → List Piece → Option (List Chunk)
  chunks_of data_of [] = some []
  chunks_of data_of (broken e ∷ pieces) = none
  chunks_of data_of (line text ∷ pieces) = add_data (data_of text) (chunks_of data_of pieces)

  -- How a call goes on from another, over some chunks.
  record Advanced (c d : Call) (chunks : List Chunk) : Type 0 where
    counted : d.content_delta_count ≡ c.content_delta_count + deltas chunks
    used :
        d.usage_output_tokens ≡ later_of c.usage_output_tokens (last_given (usage_of json) chunks)
    finished :
        d.telemetry.finish_reason
        ≡ later_of c.telemetry.finish_reason (last_given (finish_reason_of json) chunks)
    timed : is_given d.telemetry.first_token_time_s ≡ (
        is_given c.telemetry.first_token_time_s
        || any (λ chunk. is_given (content_of json chunk)) chunks)
    answered : d.telemetry.http_status ≡ c.telemetry.http_status
    unbroken : d.telemetry.error ≡ c.telemetry.error

  on_chunk-Advanced :
      (now : f.F) (c : Call) (chunk : Chunk) → Advanced c (on_chunk json now c chunk) (chunk ∷ [])
  unfolding on_chunk on_content on_finish_reason on_usage
  on_chunk-Advanced now c chunk = record {
    counted = ground arith;
    used = ground arith;
    finished = ground arith;
    timed = ground arith;
    answered = ground arith;
    unbroken = ground arith;
  }

  Advanced-none : (c : Call) → Advanced c c []
  Advanced-none c = record {
    counted = ground arith;
    used = refl;
    finished = refl;
    timed = ground arith;
    answered = refl;
    unbroken = refl;
  }

  Advanced-cons :
      {c d e : Call} {chunk : Chunk} {chunks : List Chunk}
      → Advanced c d (chunk ∷ [])
      → Advanced d e chunks
      → Advanced c e (chunk ∷ chunks)
  Advanced-cons {c} {d} {e} {chunk} {chunks} a b = record {
    counted = ground (arith, a.counted, b.counted);
    used =
        b.used
        ∙ ap (λ o. later_of o (last_given (usage_of json) chunks)) a.used
        ∙ later_of_assoc c.usage_output_tokens (usage_of json chunk)
            (last_given (usage_of json) chunks);
    finished =
        b.finished
        ∙ ap (λ o. later_of o (last_given (finish_reason_of json) chunks)) a.finished
        ∙ later_of_assoc c.telemetry.finish_reason (finish_reason_of json chunk)
            (last_given (finish_reason_of json) chunks);
    timed = ground (arith, a.timed, b.timed);
    answered = b.answered ∙ a.answered;
    unbroken = b.unbroken ∙ a.unbroken;
  }

  module _ (data_of : String → Option String) (clock : ℕ → f.F) where
    abbrev Streams : ℕ → List Piece → Type 0
    Streams k pieces =
        (c : Call) (chunks : List Chunk)
        → chunks_of data_of pieces ≡ some chunks
        → (d : Call) × (stream json data_of clock k c pieces ≡ (d, none)) × Advanced c d chunks

    resume_chunk :
        (now : f.F) (k : ℕ) (pieces : List Piece)
        → Streams k pieces
        → (c : Call) (chunks : List Chunk) (m : Result Chunk)
        → add_chunk m (chunks_of data_of pieces) ≡ some chunks
        → (d : Call) × (resume json
              (handle_chunk json now c m)
              (λ c'. stream json data_of clock k c' pieces)
            ≡ (d, none))
          × Advanced c d chunks
    resume_chunk now k pieces ih c chunks (err e) h = absurd (ground arith)
    resume_chunk now k pieces ih c chunks (ok chunk) h =
        elim (Option-cases (chunks_of data_of pieces)) [
          | inl e ↦ absurd (ground arith)
          | inr found ↦
              let (others, e) = found in
              let same : (chunk ∷ others) ≡ chunks = ground arith in
              let (d, ran, advanced) = ih (on_chunk json now c chunk) others e in
              (
                d,
                ran,
                subst (Advanced c d) same (Advanced-cons (on_chunk-Advanced now c chunk) advanced),
              )
        ]

    resume_line :
        (k : ℕ) (pieces : List Piece)
        → Streams (suc k) pieces
        → (c : Call) (chunks : List Chunk) (data_ : Option String)
        → add_data data_ (chunks_of data_of pieces) ≡ some chunks
        → (d : Call) × (resume json
              (handle_line json (clock k) c data_)
              (λ c'. stream json data_of clock (suc k) c' pieces)
            ≡ (d, none))
          × Advanced c d chunks
    unfolding handle_line
    resume_line k pieces ih c chunks none h = ih c chunks h
    resume_line k pieces ih c chunks (some data_) h =
        elim (if-cases (str_eq data_ "[DONE]") _ _ h) [
          | inl done_ ↦
              let same : [] ≡ chunks = ground arith in
              (c, rw (resume, done_.0) refl, subst (Advanced c c) same (Advanced-none c))
          | inr more ↦
              rw (resume, more.0)
                (resume_chunk (clock k) (suc k) pieces ih c chunks (decode json data_) more.1)
        ]

    stream-Advanced :
        (k : ℕ) (c : Call) (pieces : List Piece) (chunks : List Chunk)
        → chunks_of data_of pieces ≡ some chunks
        → (d : Call) × (stream json data_of clock k c pieces ≡ (d, none)) × Advanced c d chunks
    unfolding stream handle_line
    stream-Advanced k c [] chunks h =
        let e : [] ≡ chunks = cc in (c, refl, subst (Advanced c c) e (Advanced-none c))
    stream-Advanced k c (broken e ∷ pieces) chunks h = absurd (cc)
    stream-Advanced k c (line text ∷ pieces) chunks h =
        resume_line k pieces (λ c' chunks'. stream-Advanced (suc k) c' pieces chunks') c chunks
          (data_of text) h

    -- The telemetry of a stream that breaks nowhere, by its chunks up to the end mark: the tokens are
    -- those of the last usage block, or else the number of non-empty deltas; there is a time of the
    -- first token exactly when there is a delta; and the last finish reason is kept.
    pub send-chunks :
        (status : ℤ) (pieces : List Piece) (chunks : List Chunk)
        → chunks_of data_of pieces ≡ some chunks
        → (t : HttpCallTelemetry) × (send json data_of clock (streamed status pieces) ≡ (t, none))
          × (t.output_tokens ≡ or_count (last_given (usage_of json) chunks) (deltas chunks))
          × (is_given t.first_token_time_s ≡ any (λ chunk. is_given (content_of json chunk)) chunks)
          × (t.finish_reason ≡ last_given (finish_reason_of json) chunks)
          × (t.http_status ≡ some status)
          × (t.error ≡ none)
    unfolding send new_call
    send-chunks status pieces chunks h =
        let fresh = record new_call {
          telemetry = with_status json data_of clock status new_call.telemetry;
        } in
        let (d, ran, a) = stream-Advanced 0 fresh pieces chunks h in
        (
          record d.telemetry {
            output_tokens = or_count d.usage_output_tokens d.content_delta_count;
          },
          rw ran refl,
          final_count d.usage_output_tokens _ d.content_delta_count _ (a.used ∙ later_of-none _)
              a.counted,
          a.timed,
          a.finished ∙ later_of-none _,
          a.answered,
          a.unbroken,
        )

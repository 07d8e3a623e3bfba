-- ===== src/Examples/Backend.antt =====
-- A stream of three chunks, and a paced run of two requests.
use sloserve.Prelude.Sorting.{sorted}
use sloserve.Prelude.{
  ℤ, pos, ◌≤◌, ltb_ℤ, String, Option, none, some, List, [], ◌∷◌, map, any, Perm, ok, ◌≡◌, refl,
  if◌then◌else◌,
}
use text.Mathlib.Text.{◌==◌ as str_eq}
use sloserve.Prelude.Sorting.Laws.{IsInOrder}
use sloserve.Workload.Dispatcher.{timeout, success}
use sloserve.Float.Integers.{integers}
use sloserve.Router.Policies.{fcfs_policy, order}
use sloserve.Workload.HttpBackend.{
  JsonTree, Piece, line, streamed, HttpCallTelemetry, send, content_of, finish_reason_of, usage_of,
  is_given, or_count,
}
use sloserve.Workload.HttpBackend.Stream.{send-chunks, deltas, last_given}
use sloserve.Workload.Pacing.{
  DispatchResult, AsyncDispatcher, Step, start_next, end_task, returned, timed_out, begin,
  run_steps, results_of, dispatch_one,
}
use sloserve.Workload.Pacing.Permits.{dispatcher_refines, running, ids_of, request_ids}
use sloserve.Examples.Data.{chats, clock, report, chat}

-- The values of the chunks of the example.
data Tree : Type 0 where
  text_tree : String → Tree
  int_tree : ℤ → Tree
  delta_tree : String → Tree
  choice_tree : String → Tree
  choices_tree : String → Tree
  chunk_tree : String → Tree
  usage_tree : ℤ → Tree
  last_tree : ℤ → Tree

abbrev field : String → Tree → String → Option Tree
field name value asked = if str_eq name asked then some value else none

abbrev tree_object : Tree → Option (String → Option Tree)
tree_object (delta_tree text) = some (field "content" (text_tree text))
tree_object (choice_tree text) = some (field "delta" (delta_tree text))
tree_object (chunk_tree text) = some (field "choices" (choices_tree text))
tree_object (usage_tree n) = some (field "completion_tokens" (int_tree n))
tree_object (last_tree n) = some (field "usage" (usage_tree n))
tree_object _ = none

abbrev tree_list : Tree → Option (List Tree)
tree_list (choices_tree text) = some (choice_tree text ∷ [])
tree_list _ = none

abbrev tree_text : Tree → Option String
tree_text (text_tree text) = some text
tree_text _ = none

abbrev tree_int : Tree → Option ℤ
tree_int (int_tree n) = some n
tree_int _ = none

abbrev json : JsonTree
json = record {
  J = Tree;
  loads = λ text. ok (if str_eq text "usage" then last_tree (pos 2) else chunk_tree text);
  as_object = tree_object;
  as_list = tree_list;
  as_text = tree_text;
  as_int = tree_int;
}

-- Every line has the prefix.
abbrev data_of : String → Option String
data_of text = some text

abbrev pieces : List Piece
pieces = line "Hello" ∷ line "world" ∷ line "usage" ∷ line "[DONE]" ∷ line "more" ∷ []

abbrev chunks : List (String → Option Tree)
chunks =
    field "choices" (choices_tree "Hello")
    ∷ field "choices" (choices_tree "world")
    ∷ field "usage" (usage_tree (pos 2))
    ∷ []

send-chunks_example :
    (t : HttpCallTelemetry) × (send json data_of clock (streamed (pos 200) pieces) ≡ (t, none))
    × (t.output_tokens ≡ or_count (last_given json (usage_of json) chunks) (deltas json chunks))
    × (is_given t.first_token_time_s ≡ any (λ chunk. is_given (content_of json chunk)) chunks)
    × (t.finish_reason ≡ last_given json (finish_reason_of json) chunks)
    × (t.http_status ≡ some (pos 200))
    × (t.error ≡ none)
send-chunks_example = send-chunks json data_of clock (pos 200) pieces chunks refl

abbrev begun : AsyncDispatcher
begun = record { capacity = 1; pending = report ∷ chat ∷ []; tasks = [] }

begin-begun : begin 1 fcfs_policy (pos 0) chats ≡ ok begun
unfolding begin order sorted
begin-begun = refl

abbrev steps : List Step
steps = start_next ∷ start_next ∷ end_task 0 returned ∷ start_next ∷ end_task 1 timed_out ∷ []

dispatcher_refines_example :
    (running (run_steps steps begun) ≤ 1)
    × ((rs : List DispatchResult)
        → results_of (run_steps steps begun) ≡ some rs
        → Perm (map ids_of rs) (map request_ids chats) × IsInOrder ltb_ℤ (λ r. r.sequence_id) rs)
dispatcher_refines_example = dispatcher_refines 1 fcfs_policy (pos 0) chats begun steps begin-begun

-- The run of the example returns.
steps-return :
    results_of (run_steps steps begun)
    ≡ some (
        record { request_id = "chat"; sequence_id = pos 0; status = timeout; error_message = none }
        ∷ record {
          request_id = "report";
          sequence_id = pos 1;
          status = success;
          error_message = none;
        }
        ∷ [])
unfolding results_of run_steps sorted dispatch_one
steps-return = refl

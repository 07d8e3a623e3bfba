-- ===== src/Examples/Requests.antt =====
-- Requests and their validation.
use sloserve.Prelude.{ℤ, pos, some, refl, ltb_ℤ, true, ok, ◌≡◌, ◌≤ℤ◌, ◌↔◌}
use sloserve.Float.Integers.{integers}
use sloserve.Examples.Data.{clipped_chat, clipping}
use sloserve.Router.Models.{construct, clip_applied, effective_max_output_tokens, post_init}
use sloserve.Router.Models.Validity.{construct-ok_iff, effective_max_output_tokens_bounds, IsValid}
use sloserve.Config.Admission.{validate_adaptive_clip_contract}
use sloserve.Config.Admission.Contract.{validate_adaptive_clip_contract_iff, IsContract}

construct-ok_example : (construct clipped_chat ≡ ok clipped_chat) ↔ IsValid clipped_chat
construct-ok_example = construct-ok_iff clipped_chat

clipped_chat-constructs : construct clipped_chat ≡ ok clipped_chat
unfolding construct post_init
clipped_chat-constructs = refl

effective_max_output_tokens_example :
    (pos 1 ≤ℤ effective_max_output_tokens clipped_chat)
    × (effective_max_output_tokens clipped_chat ≤ℤ clipped_chat.max_output_tokens)
    × ((clip_applied clipped_chat ≡ true) ↔ (
        (cap : ℤ) × (clipped_chat.backend_max_output_tokens ≡ some cap)
        × (ltb_ℤ cap clipped_chat.max_output_tokens ≡ true)))
effective_max_output_tokens_example =
    effective_max_output_tokens_bounds clipped_chat
      ((construct-ok_iff clipped_chat).0 clipped_chat-constructs)

validate_adaptive_clip_contract_example :
    (validate_adaptive_clip_contract clipping ≡ ok tt) ↔ IsContract clipping
validate_adaptive_clip_contract_example = validate_adaptive_clip_contract_iff clipping

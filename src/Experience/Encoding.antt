-- ===== src/Experience/Encoding.antt =====
-- client/src/em/em_remote_experience.cpp and em_remote_experience.h: the encoder of the hand joints and the
-- names of the results.
use Prim.Native.String.{String}
use electric_maple.Common.{ℕ, zero, suc, Option, none, some, List, [], ◌∷◌}
use electric_maple.Stream.{Vec3}
use electric_maple.Proto.{HandJointLocation}
use electric_maple.Experience.{
  EmPollRenderResult, error_egl, error_waitframe, no_sample_available, should_not_render,
  reused_sample, new_sample, error_endframe,
}

-- nanopb's output: the bytes that a tag and a submessage add, unless they fail.
pub record Ostream : Type 0 where
  pub encode_tag : List ℕ → Option (List ℕ)
  pub encode_submessage : HandJointLocation → List ℕ → Option (List ℕ)

-- The encoder fails, has written, or reads past the end of the array.
pub data Encoded : Type 0 where
  failed : Encoded
  written : List ℕ → Encoded
  past_end : Encoded

abbrev pub then_encode : (List ℕ → Encoded) → Option (List ℕ) → Encoded
then_encode f none = failed
then_encode f (some out) = f out

abbrev pub bind_bytes : (List ℕ → Option (List ℕ)) → Option (List ℕ) → Option (List ℕ)
bind_bytes f none = none
bind_bytes f (some out) = f out

abbrev pub encode_joint : Ostream → HandJointLocation → List ℕ → Option (List ℕ)
encode_joint s j out = bind_bytes (s.encode_submessage j) (s.encode_tag out)

unfoldable pub encode_joints : Ostream → ℕ → List HandJointLocation → List ℕ → Encoded
encode_joints s zero source out = written out
encode_joints s (suc n) [] out = past_end
encode_joints s (suc n) (j ∷ js) out = then_encode (encode_joints s n js) (encode_joint s j out)

unfoldable pub proto_message_encode_hand_joint_locations :
    Ostream → List HandJointLocation → List ℕ → Encoded
proto_message_encode_hand_joint_locations s source out = encode_joints s 26 source out

unfoldable pub convert_vec3 : Vec3 → Vec3
convert_vec3 vec = record { x = vec.x; y = vec.y; z = vec.z }

unfoldable pub em_poll_render_result_to_string : EmPollRenderResult → String
em_poll_render_result_to_string error_egl = "EM_POLL_RENDER_RESULT_ERROR_EGL"
em_poll_render_result_to_string error_waitframe = "EM_POLL_RENDER_RESULT_ERROR_WAITFRAME"
em_poll_render_result_to_string no_sample_available = "EM_POLL_RENDER_RESULT_NO_SAMPLE_AVAILABLE"
em_poll_render_result_to_string should_not_render = "EM_POLL_RENDER_RESULT_SHOULD_NOT_RENDER"
em_poll_render_result_to_string reused_sample = "EM_POLL_RENDER_RESULT_REUSED_SAMPLE"
em_poll_render_result_to_string new_sample = "EM_POLL_RENDER_RESULT_NEW_SAMPLE"
em_poll_render_result_to_string error_endframe = "EM_POLL_RENDER_RESULT_unknown"

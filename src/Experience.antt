-- ===== src/Experience.antt =====
-- client/src/em/em_remote_experience.cpp and em_remote_experience.h: the object that pulls the frames,
-- draws them for OpenXR and reports to the server; here its state and the messages that it sends.
pub mod Frame
pub mod Accounts
pub mod Sound
pub mod Balance
pub mod Layers
pub mod Life
pub mod Clean
pub mod Encoding
pub mod Run
use electric_maple.Common.{
  ℕ, suc, ◌+◌, ◌%◌, ◌^◌, Bool, true, false, not, ◌&&◌, Option, none, some, List, [], ◌∷◌, ◌==◌,
  if◌then◌else◌,
}
use electric_maple.Common.Int.{ℤ, pos, negsuc, ltℤ, i64}
use electric_maple.Stream.{StreamClient, Pose, ProtoPose, Vec3}
use electric_maple.Stream.Pull.{EmSample, em_stream_client_get_average_frame_latency}
use electric_maple.Render.{Renderer, GlSwapchain, Call}
use electric_maple.Proto.{
  HandJointLocation, TrackingMessage, UpFrameMessage, UpMessage, tracking_init_default,
  up_message_init_default,
}

-- `EM_POLL_RENDER_RESULT_…`
pub data EmPollRenderResult : Type 0 where
  error_egl error_waitframe no_sample_available should_not_render : EmPollRenderResult
  reused_sample new_sample error_endframe : EmPollRenderResult

unfoldable pub result_code : EmPollRenderResult → ℤ
result_code error_egl = negsuc 1
result_code error_waitframe = negsuc 0
result_code no_sample_available = pos 0
result_code should_not_render = pos 1
result_code reused_sample = pos 2
result_code new_sample = pos 3
result_code error_endframe = pos 4

unfoldable pub em_poll_render_result_include_layer : EmPollRenderResult → Bool
em_poll_render_result_include_layer res = not (ltℤ (result_code res) (result_code reused_sample))

unfoldable pub em_poll_render_result_is_error : EmPollRenderResult → Bool
em_poll_render_result_is_error res = ltℤ (result_code res) (pos 0)

-- A view that the renderer submits: which part of the swapchain's image it shows. A field of view is a
-- number that stands for it.
pub record ProjectionView : Type 0 where
  pub swapchain : ℕ
  pub pose : Pose
  pub fov : ℕ
  pub offset_x : ℕ
  pub width : ℕ
  pub height : ℕ

-- The calls that a frame makes; `send_bytes` hands the connection nanopb's encoding of the message.
pub data XrCall : Type 0 where
  wait_frame begin_frame : XrCall
  end_frame : ℤ → List ProjectionView → XrCall
  acquire_image wait_image release_image : XrCall
  release_sample : EmSample → XrCall
  send_bytes : UpMessage → XrCall

-- `struct _EmRemoteExperience`, whose handles are 0 when they are null, with the calls so far, the newest
-- first, and those that create, use and destroy objects of OpenGL and OpenXR.
pub record EmRemoteExperience : Type 0 where
  pub stream_client : StreamClient
  pub renderer : Option Renderer
  pub prev_sample : Option EmSample
  pub eye_width : ℕ
  pub eye_height : ℕ
  pub world_space : ℕ
  pub view_space : ℕ
  pub swapchain : ℕ
  pub swapchain_buffers : GlSwapchain
  pub next_up_message : ℕ
  pub calls : List XrCall
  pub objects : List Call

abbrev pub log : XrCall → EmRemoteExperience → EmRemoteExperience
log c x = record x { calls = c ∷ x.calls }

-- The result of the send is only logged.
unfoldable pub em_remote_experience_emit_upmessage :
    UpMessage → EmRemoteExperience → EmRemoteExperience
em_remote_experience_emit_upmessage m x = record x {
  next_up_message = (x.next_up_message + 1) % 2 ^ 64;
  calls = send_bytes (record m { id = i64 x.next_up_message }) ∷ x.calls;
}

unfoldable pub convert_pose : Pose → ProtoPose
convert_pose p = record { position = some p.position; orientation = some p.orientation }

-- `XrSpaceLocation` with the velocities that are valid.
pub record HeadLocation : Type 0 where
  pub pose : Pose
  pub linear_velocity : Option Vec3
  pub angular_velocity : Option Vec3

pub record JointLocation : Type 0 where
  pub pose : Pose
  pub radius : ℕ

-- Of `InputState` what the report reads: whether the hands are active and how they grab, whether
-- the function that locates joints is there, and the hand trackers, 0 when they are null.
pub record InputState : Type 0 where
  pub left_active : Bool
  pub right_active : Bool
  pub left_grab : ℕ
  pub right_grab : ℕ
  pub pfn_locate_hand_joints : Bool
  pub hand_tracker_left : ℕ
  pub hand_tracker_right : ℕ

-- What OpenXR answers to a report (`none` is an error): where the head and the hands are, and the
-- joints of a hand tracker with the flag `isActive`; and the float of an int.
pub record ReportEnv : Type 0 where
  pub head : Option HeadLocation
  pub left_aim : Option Pose
  pub right_aim : Option Pose
  pub joints : ℕ → Option (Bool × List JointLocation)
  pub float_of : ℕ → ℕ

unfoldable pub head_tracking : HeadLocation → TrackingMessage
head_tracking l = record tracking_init_default {
  head_pose = some (convert_pose l.pose);
  head_linear_velocity = l.linear_velocity;
  head_angular_velocity = l.angular_velocity;
}

abbrev pub active_pose : Bool → Pose → Option ProtoPose
active_pose b p = if b then some (convert_pose p) else none

unfoldable pub aim_tracking : InputState → Pose → Pose → TrackingMessage → TrackingMessage
aim_tracking i left right t = record t {
  controller_aim_left = active_pose i.left_active left;
  controller_grab_value_left = i.left_grab;
  controller_aim_right = active_pose i.right_active right;
  controller_grab_value_right = i.right_grab;
}

-- The joints as the message has them, the first with the index `n`.
unfoldable pub joint_locations : (ℕ → ℕ) → ℕ → List JointLocation → List HandJointLocation
joint_locations float_of n [] = []
joint_locations float_of n (j ∷ js) =
    record { index = float_of n; pose = some (convert_pose j.pose); radius = j.radius }
    ∷ joint_locations float_of (suc n) js

abbrev pub set_joints : Bool → List HandJointLocation → TrackingMessage → TrackingMessage
set_joints is_left js t =
    if is_left
    then record t { hand_joint_locations_left = js }
    else record t { hand_joint_locations_right = js }

unfoldable pub located_hand :
    ReportEnv → Bool → Option (Bool × List JointLocation) → TrackingMessage → TrackingMessage
located_hand e is_left none t = t
located_hand e is_left (some (false, js)) t = t
located_hand e is_left (some (true, js)) t = set_joints is_left (joint_locations e.float_of 0 js) t

-- One turn of the loop over the hand trackers.
unfoldable pub locate_hand : ReportEnv → InputState → ℕ → TrackingMessage → TrackingMessage
locate_hand e i hand t = located_hand e (hand == i.hand_tracker_left) (e.joints hand) t

unfoldable pub hand_tracking : ReportEnv → InputState → TrackingMessage → TrackingMessage
hand_tracking e i t =
    if i.pfn_locate_hand_joints && not (i.hand_tracker_left == 0) && not (i.hand_tracker_right == 0)
    then locate_hand e i i.hand_tracker_right (locate_hand e i i.hand_tracker_left t)
    else t

-- The message, unless the head or a hand cannot be located.
unfoldable pub tracking_of :
    ReportEnv
    → InputState
    → Option HeadLocation
    → Option Pose
    → Option Pose
    → Option TrackingMessage
tracking_of e i (some h) (some left) (some right) =
    some (hand_tracking e i (aim_tracking i left right (head_tracking h)))
tracking_of e i (some h) (some left) none = none
tracking_of e i (some h) none right = none
tracking_of e i none left right = none

unfoldable pub send_tracking : Option TrackingMessage → EmRemoteExperience → EmRemoteExperience
send_tracking none x = x
send_tracking (some t) x =
    em_remote_experience_emit_upmessage (record up_message_init_default { tracking = some t }) x

unfoldable pub em_remote_experience_report_pose :
    ReportEnv → InputState → EmRemoteExperience → EmRemoteExperience
em_remote_experience_report_pose e i x =
    send_tracking (tracking_of e i e.head e.left_aim e.right_aim) x

abbrev pub send_frame :
    UpFrameMessage → ℤ → EmRemoteExperience → StreamClient × ℤ → EmRemoteExperience
send_frame m display x (sc, average) =
    em_remote_experience_emit_upmessage
      (record up_message_init_default {
        frame = some (record m { display_time = display; average_latency = average });
      })
      (record x { stream_client = sc })

-- The converted times are `none` where `xrConvertTimespecTimeToTimeKHR` fails.
unfoldable pub report_frame_timing :
    (ℤ → ℕ → ℤ) → Option ℤ → Option ℤ → ℤ → ℤ → EmRemoteExperience → EmRemoteExperience
report_frame_timing float_quotient (some decode_end) (some begin) display id x =
    send_frame
      (record {
        frame_sequence_id = id;
        decode_complete_time = decode_end;
        begin_frame_time = begin;
        display_time = pos 0;
        average_latency = pos 0;
      })
      display x (em_stream_client_get_average_frame_latency float_quotient x.stream_client)
report_frame_timing float_quotient (some decode_end) none display id x = x
report_frame_timing float_quotient none begin display id x = x

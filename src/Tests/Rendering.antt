-- ===== src/Tests/Rendering.antt =====
-- The theorems of the remote experience and of the renderer at concrete values.
use electric_maple.Common.{
  ℕ, ◌+◌, ◌≡◌, refl, true, false, Option, none, some, List, [], ◌∷◌, ◌==◌, if◌then◌else◌,
}
use electric_maple.Common.Int.{pos}
use electric_maple.Stream.{
  StreamClient, Sample, Pose, texture_external_oes, unref, em_stream_client_init, on_new_sample_cb,
  drop_frame,
}
use electric_maple.Stream.Pull.{
  PullEnv, em_stream_client_try_pull_sample, blank_sample, pull_slot, read_sample,
  read_down_message_from_custom_meta, message_or_last, finish_pull, fill_sample, set_target,
  first_target, em_stream_client_get_average_frame_latency,
}
use electric_maple.Stream.Samples.{count}
use electric_maple.Render.{
  Call, Renderer, no_framebuffers, SwapchainEnv, enumerate_and_generate_framebuffers, Enumerated,
}
use electric_maple.Render.Objects.{Weight, weight_created, weight_destroyed}
use electric_maple.Render.Framebuffers.{IsAllOrNothing, framebuffers-IsAllOrNothing}
use electric_maple.Experience.{
  EmRemoteExperience, InputState, ReportEnv, em_remote_experience_emit_upmessage,
  em_remote_experience_report_pose, tracking_of, send_tracking, report_frame_timing,
}
use electric_maple.Experience.Frame.{
  XrView, FrameState, FrameEnv, em_remote_experience_poll_and_render_frame, waited, begun,
  render_if, submit_frame, em_remote_experience_inner_poll_and_render_frame, use_pull, no_sample,
  render_sample, finish_draw, timing_reported, replace_prev_sample, draw_sample, framebuffer_at,
}
use electric_maple.Experience.Accounts.{
  tally, is_begin, is_end, is_acquire, is_release, released, held_sample,
}
use electric_maple.Experience.Run.{
  Op, arrive, frame, World, step, run, start, IsFresh, total_missed, frames_ended, samples_owned,
}
use electric_maple.Experience.Layers.{KeepsResult, IsSubmitted, layer_iff_sample}
use electric_maple.Experience.Life.{NewEnv, calloc_experience, lifetime}

abbrev pub client : StreamClient
client = record (em_stream_client_init (pos 50)) { pipeline = true; appsink = true }

abbrev pub sample_of : ℕ → Sample
sample_of k = record { id = k; meta = none; texture = 3; target = some texture_external_oes }

abbrev pub pull_env : PullEnv
pull_env = record {
  current_time = pos 90;
  now_ns = pos 100;
  render_begin = pos 110;
  server_clock_offset = pos 5;
  decode = λ _. none;
  float_quotient = λ total n. total;
}

abbrev pub pose_at : ℕ → Pose
pose_at n = record {
  orientation = record { x = 0; y = 0; z = 0; w = n };
  position = record { x = n; y = 0; z = 0 };
}

abbrev view_at : ℕ → XrView
view_at n = record { pose = pose_at n; fov = n }

abbrev frame_state : FrameState
frame_state = record { predicted_display_time = pos 200; should_render = true }

-- The head cannot be located.
abbrev pub no_report : ReportEnv
no_report = record {
  head = none;
  left_aim = none;
  right_aim = none;
  joints = λ _. none;
  float_of = λ n. n;
}

abbrev good_frame : FrameEnv
good_frame = record {
  wait = some frame_state;
  begin = true;
  begin_time = some (pos 150);
  views = some (view_at 1, view_at 2);
  make_current = true;
  pull = pull_env;
  acquire = some 0;
  wait_image = true;
  convert_time = λ t. some t;
  end = true;
  connected = true;
  report = no_report;
}

abbrev pub input : InputState
input = record {
  left_active = true;
  right_active = false;
  left_grab = 1;
  right_grab = 2;
  pfn_locate_hand_joints = false;
  hand_tracker_left = 0;
  hand_tracker_right = 0;
}

-- A sample is shown, a frame finds no views, a second sample is shown and a third one arrives.
abbrev ops : List Op
ops =
    arrive (pos 60) (sample_of 1)
    ∷ frame good_frame input
    ∷ frame (record good_frame { views = none }) input
    ∷ arrive (pos 70) (sample_of 2)
    ∷ frame good_frame input
    ∷ arrive (pos 80) (sample_of 3)
    ∷ []

abbrev renderer : Renderer
renderer = record { program = 4; quad_vao = 5; quad_vbo = 6; texture_sampler_location = 0 }

abbrev fresh : EmRemoteExperience
fresh = record (calloc_experience client 100 90) {
  renderer = some renderer;
  swapchain = 8;
  swapchain_buffers = record { images = 31 ∷ []; framebuffers = 41 ∷ [] };
}

fresh-IsFresh : IsFresh fresh
unfolding calloc_experience em_stream_client_init
fresh-IsFresh = (refl, refl, refl, refl)

abbrev world_or : World → Option World → World
world_or w none = w
world_or w (some v) = v

abbrev after_ops : World
after_ops = world_or (start fresh) (run ops (start fresh))

run-ops : run ops (start fresh) ≡ some after_ops
unfolding run step on_new_sample_cb drop_frame em_remote_experience_poll_and_render_frame waited
    begun render_if submit_frame em_remote_experience_inner_poll_and_render_frame use_pull no_sample
    render_sample finish_draw timing_reported replace_prev_sample draw_sample framebuffer_at
    em_stream_client_try_pull_sample pull_slot read_sample finish_pull set_target first_target
    fill_sample message_or_last read_down_message_from_custom_meta blank_sample
    em_stream_client_init calloc_experience report_frame_timing em_remote_experience_report_pose
    tracking_of send_tracking em_remote_experience_emit_upmessage
    em_stream_client_get_average_frame_latency
run-ops = refl

frames_ended_example :
    (tally is_begin after_ops.experience.calls
      ≡ tally is_end after_ops.experience.calls + total_missed ops)
    × (tally is_acquire after_ops.experience.calls ≡ tally is_release after_ops.experience.calls)
frames_ended_example = frames_ended ops fresh after_ops fresh-IsFresh run-ops

samples_owned_example :
    count 1 after_ops.handed
    ≡ count 1 (unref after_ops.experience.stream_client.sample)
      + count 1 (held_sample after_ops.experience.prev_sample)
      + count 1 (released after_ops.experience.calls)
      + count 1 after_ops.dropped
samples_owned_example = samples_owned 1 ops fresh after_ops fresh-IsFresh run-ops

layer_iff_sample_example :
    KeepsResult
      (λ _ y. IsSubmitted true (view_at 1, view_at 2) fresh y)
      (em_remote_experience_poll_and_render_frame good_frame input fresh)
layer_iff_sample_example =
    layer_iff_sample good_frame input frame_state (pos 150) (view_at 1, view_at 2) fresh refl refl
      refl refl

-- The weight of every object is 1.
abbrev ones : Weight
ones r n = if n == 0 then 0 else 1

-- Two images, of which the second framebuffer is not complete.
abbrev images : SwapchainEnv
images = record {
  count = some 2;
  images = some (31 ∷ 32 ∷ []);
  framebuffer_name = λ n. n + 41;
  is_complete = λ n. n == 41;
}

framebuffers-IsAllOrNothing_example :
    (r : Enumerated) × (enumerate_and_generate_framebuffers images no_framebuffers [] ≡ some r)
    × IsAllOrNothing ones (λ n. n == 41) 0 r
unfolding weight_created weight_destroyed
framebuffers-IsAllOrNothing_example = framebuffers-IsAllOrNothing ones images 0 [] refl

abbrev new_env : NewEnv
new_env = record {
  convert_function = true;
  swapchain = some 8;
  framebuffers = record images { is_complete = λ _. true };
  throws = false;
  gl = record {
    vertex_shader = 1;
    fragment_shader = 2;
    program = 4;
    vao = 5;
    vbo = 6;
    location = 0;
  };
  world_space = some 9;
  view_space = some 10;
}

abbrev calls_or : Option (List Call) → List Call
calls_or none = []
calls_or (some calls) = calls

abbrev life_calls : List Call
life_calls = calls_or (lifetime new_env client 100 90 ops)

-- ===== src/Experience/Frame.antt =====
-- client/src/em/em_remote_experience.cpp: one frame of the client, from `xrWaitFrame` to `xrEndFrame`.
use electric_maple.Common.{
  ◌*◌, ℕ, suc, zero, Bool, true, false, Option, none, some, List, [], ◌∷◌, if◌then◌else◌,
}
use electric_maple.Common.Int.{ℤ}
use electric_maple.Stream.{Pose, TextureTarget, unset_target, texture_external_oes, texture_2d}
use electric_maple.Stream.Pull.{
  EmSample, PullEnv, Pull, nothing, pulled, not_reached, em_stream_client_try_pull_sample,
}
use electric_maple.Render.{
  Renderer, draw, bind_framebuffer, viewport, clear_color, disable_framebuffer_srgb,
}
use electric_maple.Experience.{
  EmPollRenderResult, error_egl, error_waitframe, no_sample_available, should_not_render,
  reused_sample, new_sample, error_endframe, em_poll_render_result_include_layer, ProjectionView,
  wait_frame, begin_frame, end_frame, acquire_image, wait_image, release_image, release_sample,
  EmRemoteExperience, log, InputState, ReportEnv, em_remote_experience_report_pose,
  report_frame_timing,
}

pub record XrView : Type 0 where
  pub pose : Pose
  pub fov : ℕ

pub record FrameState : Type 0 where
  pub predicted_display_time : ℤ
  pub should_render : Bool

-- What the calls of a frame answer: a failure is `none` or false.
pub record FrameEnv : Type 0 where
  pub wait : Option FrameState
  pub begin : Bool
  pub begin_time : Option ℤ
  pub views : Option (XrView × XrView)
  pub make_current : Bool
  pub pull : PullEnv
  pub acquire : Option ℕ
  pub wait_image : Bool
  pub convert_time : ℤ → Option ℤ
  pub end : Bool
  pub connected : Bool
  pub report : ReportEnv

-- A frame returns a result, or the program ends in `abort`, an assertion or an exception.
pub data Frame : Type 0 where
  finished : EmPollRenderResult → EmRemoteExperience → Frame
  aborted : Frame

-- The value of a `GLenum`.
unfoldable pub texture_target_code : TextureTarget → ℕ
texture_target_code unset_target = 0
texture_target_code texture_external_oes = 36197
texture_target_code texture_2d = 3553

unfoldable pub framebuffer_at : ℕ → List ℕ → Option ℕ
framebuffer_at n [] = none
framebuffer_at zero (f ∷ fs) = some f
framebuffer_at (suc n) (f ∷ fs) = framebuffer_at n fs

-- The two halves of the swapchain's image.
unfoldable pub projection_views : EmRemoteExperience → XrView × XrView → List ProjectionView
projection_views x (left, right) =
    record {
      swapchain = x.swapchain;
      pose = left.pose;
      fov = left.fov;
      offset_x = 0;
      width = x.eye_width;
      height = x.eye_height;
    }
    ∷ record {
      swapchain = x.swapchain;
      pose = right.pose;
      fov = right.fov;
      offset_x = x.eye_width;
      width = x.eye_width;
      height = x.eye_height;
    }
    ∷ []

-- Draws a pulled frame into the acquired image.
unfoldable pub draw_sample :
    EmSample → ℕ → Option Renderer → Option ℕ → EmRemoteExperience → Option EmRemoteExperience
draw_sample r target (some renderer) (some f) x = some (
    log release_image (record x {
      objects =
          bind_framebuffer 0
          ∷ draw r.frame_texture_id target renderer (
              disable_framebuffer_srgb
              ∷ clear_color
              ∷ viewport (x.eye_width * 2) x.eye_height
              ∷ bind_framebuffer f
              ∷ x.objects);
    }))
draw_sample r target (some renderer) none x = none
draw_sample r target none f x = none

-- The frame before is released, and the new one is kept.
unfoldable pub replace_prev_sample :
    EmSample → Option EmSample → EmRemoteExperience → EmRemoteExperience
replace_prev_sample r none x = record x { prev_sample = some r }
replace_prev_sample r (some p) x = record (log (release_sample p) x) { prev_sample = some r }

unfoldable pub timing_reported :
    FrameEnv → ℤ → ℤ → EmSample → EmRemoteExperience → EmRemoteExperience
timing_reported e begin_time display r x =
    report_frame_timing e.pull.float_quotient
      (e.convert_time x.stream_client.sample_decode_end_time) (e.convert_time begin_time) display
      r.frame_sequence_id x

unfoldable pub finish_draw : FrameEnv → ℤ → ℤ → EmSample → Option EmRemoteExperience → Frame
finish_draw e begin_time display r none = aborted
finish_draw e begin_time display r (some x) =
    finished new_sample
      (timing_reported e begin_time display r (replace_prev_sample r x.prev_sample x))

unfoldable pub render_sample : FrameEnv → ℤ → ℤ → EmSample → Option ℕ → EmRemoteExperience → Frame
render_sample e begin_time display r none x = aborted
render_sample e begin_time display r (some image) x =
    if e.wait_image
    then finish_draw e begin_time display r (
        draw_sample r (texture_target_code r.frame_texture_target) x.renderer
          (framebuffer_at image x.swapchain_buffers.framebuffers)
          (log wait_image (log acquire_image x)))
    else aborted

unfoldable pub no_sample : Option EmSample → EmRemoteExperience → Frame
no_sample none x = finished no_sample_available x
no_sample (some p) x = finished reused_sample x

unfoldable pub use_pull : FrameEnv → ℤ → ℤ → Pull → EmRemoteExperience → Frame
use_pull e begin_time display (nothing sc) x =
    no_sample x.prev_sample (record x { stream_client = sc })
use_pull e begin_time display (pulled r sc) x =
    render_sample e begin_time display r e.acquire (record x { stream_client = sc })
use_pull e begin_time display not_reached x = aborted

unfoldable pub em_remote_experience_inner_poll_and_render_frame :
    FrameEnv → ℤ → ℤ → EmRemoteExperience → Frame
em_remote_experience_inner_poll_and_render_frame e begin_time display x =
    use_pull e begin_time display (em_stream_client_try_pull_sample e.pull x.stream_client) x

abbrev pub report_if_connected : FrameEnv → InputState → EmRemoteExperience → EmRemoteExperience
report_if_connected e i x = if e.connected then em_remote_experience_report_pose e.report i x else x

unfoldable pub submit_frame : FrameEnv → InputState → ℤ → XrView × XrView → Frame → Frame
submit_frame e i display views aborted = aborted
submit_frame e i display views (finished r x) =
    let layers = if em_poll_render_result_include_layer r then projection_views x views else [] in
    let ended = log (end_frame display layers) x in
    if e.end then finished r (report_if_connected e i ended) else finished error_endframe ended

unfoldable pub render_if : Bool → FrameEnv → ℤ → ℤ → EmRemoteExperience → Frame
render_if true e begin_time display x =
    em_remote_experience_inner_poll_and_render_frame e begin_time display x
render_if false e begin_time display x = finished should_not_render x

-- After `xrBeginFrame`: the time, the views, the EGL context, the frame.
unfoldable pub begun :
    FrameEnv
    → InputState
    → FrameState
    → Option ℤ
    → Option (XrView × XrView)
    → EmRemoteExperience
    → Frame
begun e i s (some begin_time) (some views) x =
    if e.make_current
    then submit_frame e i s.predicted_display_time views
        (render_if s.should_render e begin_time s.predicted_display_time x)
    else finished error_egl x
begun e i s (some begin_time) none x = finished should_not_render x
begun e i s none views x = finished should_not_render x

unfoldable pub waited : FrameEnv → InputState → Option FrameState → EmRemoteExperience → Frame
waited e i none x = finished error_waitframe (log wait_frame x)
waited e i (some s) x =
    if e.begin
    then begun e i s e.begin_time e.views (log begin_frame (log wait_frame x))
    else aborted

unfoldable pub em_remote_experience_poll_and_render_frame :
    FrameEnv → InputState → EmRemoteExperience → Frame
em_remote_experience_poll_and_render_frame e i x = waited e i e.wait x

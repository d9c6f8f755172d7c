-- ===== src/Experience/Layers.antt =====
-- client/src/em/em_remote_experience.cpp: what a frame submits.
use electric_maple.Common.{
  ◌≡◌, refl, sym, subst, Bool, true, false, ◌&&◌, Option, none, some, List, [], ◌∷◌, if◌then◌else◌,
  if-elim, is_some, ℕ,
}
use electric_maple.Common.Int.{ℤ}
use electric_maple.Stream.Pull.{
  EmSample, Pull, nothing, pulled, not_reached, em_stream_client_get_average_frame_latency,
}
use electric_maple.Render.{Renderer}
use electric_maple.Proto.{TrackingMessage}
use electric_maple.Experience.{
  XrCall, wait_frame, begin_frame, end_frame, acquire_image, wait_image, EmPollRenderResult,
  error_egl, new_sample, result_code, em_poll_render_result_include_layer, EmRemoteExperience, log,
  InputState, send_tracking, ProjectionView, em_remote_experience_emit_upmessage,
  em_remote_experience_report_pose, report_frame_timing,
}
use electric_maple.Experience.Frame.{
  XrView, FrameState, FrameEnv, Frame, finished, aborted, draw_sample, replace_prev_sample,
  timing_reported, finish_draw, render_sample, no_sample, use_pull, projection_views,
  em_remote_experience_inner_poll_and_render_frame, submit_frame, render_if, begun, waited,
  em_remote_experience_poll_and_render_frame,
}

-- The layers that were submitted, the newest first: of each `xrEndFrame` the views of its layer.
unfoldable pub submissions : List XrCall → List (List ProjectionView)
submissions [] = []
submissions (end_frame t layers ∷ calls) = layers ∷ submissions calls
submissions (_ ∷ calls) = submissions calls

-- `y` has submitted what `x` has, and would submit the same views.
abbrev IsSame : EmRemoteExperience → EmRemoteExperience → Type 0
IsSame x y =
    (submissions y.calls ≡ submissions x.calls)
    × (y.swapchain ≡ x.swapchain)
    × (y.eye_width ≡ x.eye_width)
    × (y.eye_height ≡ x.eye_height)

abbrev pub KeepsResult : (EmPollRenderResult → EmRemoteExperience → Type 0) → Frame → Type 0
KeepsResult P (finished r x) = P r x
KeepsResult P aborted = Unit

-- The result says whether there is a sample to show.
abbrev IsRendered : EmRemoteExperience → EmPollRenderResult → EmRemoteExperience → Type 0
IsRendered x r y = (em_poll_render_result_include_layer r ≡ is_some y.prev_sample) × IsSame x y

timing-IsRendered :
    (x y : EmRemoteExperience) (q : ℤ → ℕ → ℤ) (decode_end begin : Option ℤ) (t id : ℤ)
    (r : EmPollRenderResult)
    → IsRendered x r y
    → IsRendered x r (report_frame_timing q decode_end begin t id y)
unfolding report_frame_timing em_remote_experience_emit_upmessage submissions
    em_stream_client_get_average_frame_latency
timing-IsRendered x y q none begin t id r h = h
timing-IsRendered x y q (some d) none t id r h = h
timing-IsRendered x y q (some d) (some b) t id r h = h

replaced-IsRendered :
    (x y : EmRemoteExperience) (r : EmSample) (p : Option EmSample)
    → IsSame x y
    → IsRendered x new_sample (replace_prev_sample r p y)
unfolding replace_prev_sample submissions em_poll_render_result_include_layer result_code
replaced-IsRendered x y r none h = (refl, h)
replaced-IsRendered x y r (some p) h = (refl, h)

drawn-IsRendered :
    (x y : EmRemoteExperience) (e : FrameEnv) (t display : ℤ) (r : EmSample) (target : ℕ)
    (g : Option Renderer) (f : Option ℕ)
    → IsSame x y
    → KeepsResult (IsRendered x) (
        finish_draw e t display r (draw_sample r target g f (log wait_image (log acquire_image y))))
unfolding finish_draw draw_sample timing_reported submissions
drawn-IsRendered x y e t display r target none f h = tt
drawn-IsRendered x y e t display r target (some g) none h = tt
drawn-IsRendered x y e t display r target (some g) (some f) h =
    timing-IsRendered x _ _ _ _ _ _ new_sample (replaced-IsRendered x _ r y.prev_sample h)

render_sample-IsRendered :
    (x y : EmRemoteExperience) (e : FrameEnv) (t display : ℤ) (r : EmSample) (i : Option ℕ)
    → IsSame x y
    → KeepsResult (IsRendered x) (render_sample e t display r i y)
unfolding render_sample
render_sample-IsRendered x y e t display r none h = tt
render_sample-IsRendered x y e t display r (some i) h =
    if-elim (KeepsResult (IsRendered x)) e.wait_image
      (drawn-IsRendered x y e t display r _ y.renderer _ h) tt

no_sample-IsRendered :
    (x y : EmRemoteExperience) (p : Option EmSample)
    → y.prev_sample ≡ p
    → IsSame x y
    → KeepsResult (IsRendered x) (no_sample p y)
unfolding no_sample em_poll_render_result_include_layer result_code
no_sample-IsRendered x y none e h = (rw e, h)
no_sample-IsRendered x y (some p) e h = (rw e, h)

use_pull-IsRendered :
    (e : FrameEnv) (t display : ℤ) (p : Pull) (x : EmRemoteExperience)
    → KeepsResult (IsRendered x) (use_pull e t display p x)
unfolding use_pull
use_pull-IsRendered e t display (nothing sc) x =
    no_sample-IsRendered x _ x.prev_sample refl (refl, refl, refl, refl)
use_pull-IsRendered e t display (pulled r sc) x =
    render_sample-IsRendered x _ e t display r e.acquire (refl, refl, refl, refl)
use_pull-IsRendered e t display not_reached x = tt

-- What a frame that reaches `xrEndFrame` has submitted.
abbrev pub IsSubmitted : Bool → XrView × XrView → EmRemoteExperience → EmRemoteExperience → Type 0
IsSubmitted b views x y =
    submissions y.calls
    ≡ (if b && is_some y.prev_sample then projection_views x views else []) ∷ submissions x.calls

abbrev IsShown : Bool → EmRemoteExperience → EmPollRenderResult → EmRemoteExperience → Type 0
IsShown b x r y = (em_poll_render_result_include_layer r ≡ b && is_some y.prev_sample) × IsSame x y

render_if-IsShown :
    (b : Bool) (e : FrameEnv) (t display : ℤ) (x : EmRemoteExperience)
    → KeepsResult (IsShown b x) (render_if b e t display x)
unfolding render_if em_remote_experience_inner_poll_and_render_frame
    em_poll_render_result_include_layer result_code
render_if-IsShown true e t display x = use_pull-IsRendered e t display _ x
render_if-IsShown false e t display x = (refl, (refl, refl, refl, refl))

views-IsSame :
    (x y : EmRemoteExperience) (v : XrView × XrView)
    → IsSame x y
    → projection_views y v ≡ projection_views x v
unfolding projection_views
views-IsSame x y v (_, s, w, h) = rw (s, w, h)

reported-IsSubmitted :
    (b : Bool) (v : XrView × XrView) (x y : EmRemoteExperience) (o : Option TrackingMessage)
    → IsSubmitted b v x y
    → IsSubmitted b v x (send_tracking o y)
unfolding send_tracking em_remote_experience_emit_upmessage submissions
reported-IsSubmitted b v x y none h = h
reported-IsSubmitted b v x y (some t) h = h

submit_frame-IsSubmitted :
    (b : Bool) (e : FrameEnv) (i : InputState) (t : ℤ) (v : XrView × XrView)
    (x : EmRemoteExperience) (r : Frame)
    → KeepsResult (IsShown b x) r
    → KeepsResult (λ _ y. IsSubmitted b v x y) (submit_frame e i t v r)
unfolding submit_frame em_remote_experience_report_pose submissions
submit_frame-IsSubmitted b e i t v x aborted h = tt
submit_frame-IsSubmitted b e i t v x (finished r y) (s, same) =
    let ended = ended_lem in
    if-elim (KeepsResult (λ _ z. IsSubmitted b v x z)) e.end
      (if-elim (IsSubmitted b v x) e.connected (reported-IsSubmitted b v x _ _ ended) ended) ended
  where
    ended_lem :
        ((if em_poll_render_result_include_layer r then projection_views y v else [])
          ∷ submissions y.calls)
        ≡ (if b && is_some y.prev_sample then projection_views x v else []) ∷ submissions x.calls
    ended_lem = rw (s, views-IsSame x y v same, same.0)

begun-IsSubmitted :
    (e : FrameEnv) (i : InputState) (s : FrameState) (t : ℤ) (v : XrView × XrView)
    (x : EmRemoteExperience)
    → e.begin_time ≡ some t
    → e.views ≡ some v
    → e.make_current ≡ true
    → KeepsResult (λ _ y. IsSubmitted s.should_render v x y) (begun e i s e.begin_time e.views x)
unfolding begun
begun-IsSubmitted e i s t v x b vs c =
    subst (λ o. KeepsResult P (begun e i s o e.views x)) (sym b)
      (subst (λ o. KeepsResult P (begun e i s (some t) o x)) (sym vs)
        (subst (λ u. KeepsResult P (if u then shown else finished error_egl x)) (sym c)
          (submit_frame-IsSubmitted s.should_render e i s.predicted_display_time v x _
            (render_if-IsShown s.should_render e t s.predicted_display_time x))))
  where
    P : EmPollRenderResult → EmRemoteExperience → Type 0
    P r y = IsSubmitted s.should_render v x y

    shown : Frame
    shown =
        submit_frame e i s.predicted_display_time v
          (render_if s.should_render e t s.predicted_display_time x)

-- A frame that gets its views, its time and its EGL context submits the two halves of the swapchain's
-- image exactly if it should render and afterwards keeps a sample, unless it aborts.
pub layer_iff_sample :
    (e : FrameEnv) (i : InputState) (s : FrameState) (t : ℤ) (v : XrView × XrView)
    (x : EmRemoteExperience)
    → e.wait ≡ some s
    → e.begin_time ≡ some t
    → e.views ≡ some v
    → e.make_current ≡ true
    → KeepsResult
        (λ _ y. IsSubmitted s.should_render v x y)
        (em_remote_experience_poll_and_render_frame e i x)
unfolding em_remote_experience_poll_and_render_frame waited submissions projection_views
layer_iff_sample e i s t v x w b vs c =
    subst (λ o. KeepsResult (λ _ y. IsSubmitted s.should_render v x y) (waited e i o x)) (sym w)
      (if-elim (KeepsResult (λ _ y. IsSubmitted s.should_render v x y)) e.begin
        (begun-IsSubmitted e i s t v (log begin_frame (log wait_frame x)) b vs c) tt)

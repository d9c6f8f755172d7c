-- ===== src/Experience/Sound.antt =====
-- client/src/em/em_remote_experience.cpp: what every frame keeps, of the calls, the messages, the samples
-- and the objects.
use electric_maple.Experience.Accounts.{
  tally, is_begin, is_end, is_acquire, is_release, released, sent_ids, ids_below, held_sample,
  Fixed, IsPaired, IsNumbered, IsBalanced, IsSound, Keeps,
}
use electric_maple.Common.{
  ℕ, suc, ◌+◌, ◌%◌, ◌^◌, ◌≡◌, refl, ap, sym, Option, none, some, [], ◌∷◌, arith, if-elim, length,
}
use electric_maple.Common.Int.{ℤ}
use electric_maple.Stream.Pull.{
  EmSample, Pull, nothing, pulled, not_reached, em_stream_client_try_pull_sample,
  em_stream_client_get_average_frame_latency, em_stream_client_release_sample,
}
use electric_maple.Stream.Samples.{count, count-slot, HandsOver, try_pull-HandsOver}
use electric_maple.Render.{Renderer, draw}
use electric_maple.Render.Objects.{weight_created, weight_destroyed}
use electric_maple.Proto.{UpMessage, TrackingMessage}
use electric_maple.Experience.{
  acquire_image, wait_image, EmRemoteExperience, log, InputState, ReportEnv, send_tracking,
  em_remote_experience_emit_upmessage, em_remote_experience_report_pose, report_frame_timing,
}
use electric_maple.Experience.Frame.{
  FrameEnv, draw_sample, replace_prev_sample, timing_reported, finish_draw, render_sample,
  no_sample, use_pull, em_remote_experience_inner_poll_and_render_frame,
}

next_id : (n m : ℕ) → n ≡ m % 2 ^ 64 → (n + 1) % 2 ^ 64 ≡ suc m % 2 ^ 64
next_id n m e = omega (arith, e)

emit-IsNumbered :
    (m : UpMessage) (x : EmRemoteExperience)
    → IsNumbered x
    → IsNumbered (em_remote_experience_emit_upmessage m x)
unfolding em_remote_experience_emit_upmessage sent_ids ids_below
emit-IsNumbered m x (ids, next) =
    (rw (next, sym ids), next_id x.next_up_message (length (sent_ids x.calls)) next)

pub emit-IsSound :
    (f : Fixed) (m : UpMessage) (x : EmRemoteExperience)
    → IsSound f x
    → IsSound f (em_remote_experience_emit_upmessage m x)
unfolding em_remote_experience_emit_upmessage tally is_begin is_end is_acquire is_release released
emit-IsSound f m x ((p, q), n, o, h) =
    ((omega (arith, p), omega (arith, q)), emit-IsNumbered m x n, o, h)

send_tracking-IsSound :
    (f : Fixed) (o : Option TrackingMessage) (x : EmRemoteExperience)
    → IsSound f x
    → IsSound f (send_tracking o x)
unfolding send_tracking
send_tracking-IsSound f none x s = s
send_tracking-IsSound f (some t) x s = emit-IsSound f _ x s

pub report_pose-IsSound :
    (f : Fixed) (e : ReportEnv) (i : InputState) (x : EmRemoteExperience)
    → IsSound f x
    → IsSound f (em_remote_experience_report_pose e i x)
unfolding em_remote_experience_report_pose
report_pose-IsSound f e i x s = send_tracking-IsSound f _ x s

timing-IsSound :
    (f : Fixed) (q : ℤ → ℕ → ℤ) (decode_end begin : Option ℤ) (display id : ℤ)
    (x : EmRemoteExperience)
    → IsSound f x
    → IsSound f (report_frame_timing q decode_end begin display id x)
unfolding report_frame_timing em_stream_client_get_average_frame_latency
timing-IsSound f q none begin display id x s = s
timing-IsSound f q (some d) none display id x s = s
timing-IsSound f q (some d) (some b) display id x s = emit-IsSound f _ _ s

-- After the frame `r` was pulled, its sample is in nobody's hands yet.
abbrev IsPulled : EmSample → Fixed → EmRemoteExperience → Type 0
IsPulled r f x =
    IsPaired f.open_frames x
    × IsNumbered x
    × (f.handed
        ≡ count f.number (r.sample ∷ [])
          + count f.number (held_sample x.prev_sample)
          + count f.number (released x.calls)
          + f.dropped)
    × (x.stream_client.sample ≡ none)
    × IsBalanced f x

replace-IsSound :
    (f : Fixed) (r : EmSample) (x : EmRemoteExperience) (p : Option EmSample)
    → x.prev_sample ≡ p
    → IsPulled r f x
    → IsSound f (replace_prev_sample r p x)
unfolding replace_prev_sample tally is_begin is_end is_acquire is_release released sent_ids count
    em_stream_client_release_sample
replace-IsSound f r x none e (p, n, o, z, h) = (
  p,
  n,
  ground (
    arith,
    o,
    count-slot f.number x.stream_client.sample none z,
    ap (λ t. count f.number (held_sample t)) e,
  ),
  h,
)
replace-IsSound f r x (some v) e ((p, q), n, o, z, h) = (
  (omega (arith, p), omega (arith, q)),
  n,
  ground (
    arith,
    o,
    count-slot f.number x.stream_client.sample none z,
    ap (λ t. count f.number (held_sample t)) e,
  ),
  h,
)

abbrev KeptIf : (EmRemoteExperience → Type 0) → Option EmRemoteExperience → Type 0
KeptIf P none = Unit
KeptIf P (some x) = P x

draw-IsPulled :
    (f : Fixed) (r : EmSample) (target : ℕ) (g : Option Renderer) (b : Option ℕ)
    (x : EmRemoteExperience)
    → IsPulled r f x
    → KeptIf (IsPulled r f) (draw_sample r target g b (log wait_image (log acquire_image x)))
unfolding draw_sample tally is_begin is_end is_acquire is_release released sent_ids weight_created
    weight_destroyed draw
draw-IsPulled f r target none b x s = tt
draw-IsPulled f r target (some g) none x s = tt
draw-IsPulled f r target (some g) (some b) x ((p, q), n, o, z, h) =
    ((omega (arith, p), omega (arith, q)), n, o, z, h)

finish-IsSound :
    (f : Fixed) (e : FrameEnv) (t display : ℤ) (r : EmSample) (o : Option EmRemoteExperience)
    → KeptIf (IsPulled r f) o
    → Keeps (IsSound f) (finish_draw e t display r o)
unfolding finish_draw timing_reported
finish-IsSound f e t display r none s = tt
finish-IsSound f e t display r (some x) s =
    timing-IsSound f _ _ _ display _ _ (replace-IsSound f r x x.prev_sample refl s)

render_sample-IsSound :
    (f : Fixed) (e : FrameEnv) (t display : ℤ) (r : EmSample) (image : Option ℕ)
    (x : EmRemoteExperience)
    → IsPulled r f x
    → Keeps (IsSound f) (render_sample e t display r image x)
unfolding render_sample
render_sample-IsSound f e t display r none x s = tt
render_sample-IsSound f e t display r (some i) x s =
    if-elim (Keeps (IsSound f)) e.wait_image
      (finish-IsSound f e t display r _ (draw-IsPulled f r _ _ _ x s)) tt

no_sample-IsSound :
    (f : Fixed) (p : Option EmSample) (x : EmRemoteExperience)
    → IsSound f x
    → Keeps (IsSound f) (no_sample p x)
unfolding no_sample
no_sample-IsSound f none x s = s
no_sample-IsSound f (some p) x s = s

use_pull-IsSound :
    (f : Fixed) (e : FrameEnv) (t display : ℤ) (p : Pull) (x : EmRemoteExperience)
    → HandsOver x.stream_client.sample p
    → IsSound f x
    → Keeps (IsSound f) (use_pull e t display p x)
unfolding use_pull count
use_pull-IsSound f e t display (nothing sc) x a (p, n, o, h) =
    no_sample-IsSound f x.prev_sample _
      (p, n, omega (arith, o, count-slot f.number sc.sample x.stream_client.sample a), h)
use_pull-IsSound f e t display (pulled r sc) x (a, z) (p, n, o, h) =
    render_sample-IsSound f e t display r e.acquire _
      (p, n, omega (arith, o, count-slot f.number x.stream_client.sample (some r.sample) a), z, h)
use_pull-IsSound f e t display not_reached x a s = tt

-- The render of a frame keeps all of it.
pub inner-IsSound :
    (f : Fixed) (e : FrameEnv) (t display : ℤ) (x : EmRemoteExperience)
    → IsSound f x
    → Keeps (IsSound f) (em_remote_experience_inner_poll_and_render_frame e t display x)
unfolding em_remote_experience_inner_poll_and_render_frame
inner-IsSound f e t display x s =
    use_pull-IsSound f e t display (em_stream_client_try_pull_sample e.pull x.stream_client) x
      (try_pull-HandsOver e.pull x.stream_client) s

-- ===== src/Experience/Balance.antt =====
-- client/src/em/em_remote_experience.cpp: the calls of one whole frame, and what it keeps.
use electric_maple.Common.{
  ℕ, ◌+◌, Bool, true, false, not, ◌&&◌, ◌||◌, Option, none, some, List, arith, if◌then◌else◌,
  if-elim, is_some,
}
use electric_maple.Common.Int.{ℤ}
use electric_maple.Experience.{
  wait_frame, begin_frame, end_frame, EmRemoteExperience, log, InputState, ProjectionView,
  error_egl,
}
use electric_maple.Experience.Frame.{
  XrView, FrameState, FrameEnv, Frame, finished, aborted, submit_frame, render_if, begun, waited,
  em_remote_experience_poll_and_render_frame,
}
use electric_maple.Experience.Accounts.{
  tally, is_begin, is_end, is_acquire, is_release, released, sent_ids, Fixed, IsSound, Keeps,
}
use electric_maple.Experience.Sound.{report_pose-IsSound, inner-IsSound}

-- A frame that begins and gets no time, no views or no EGL context.
abbrev pub misses_end : FrameEnv → Bool
misses_end e =
    is_some e.wait && (not (is_some e.begin_time) || not (is_some e.views) || not e.make_current)

abbrev pub opened : ℕ → Fixed → Fixed
opened n f = record f { open_frames = n + f.open_frames }

ended-IsSound :
    (f : Fixed) (t : ℤ) (layers : List ProjectionView) (x : EmRemoteExperience)
    → IsSound (opened 1 f) x
    → IsSound f (log (end_frame t layers) x)
unfolding tally is_begin is_end is_acquire is_release released sent_ids
ended-IsSound f t layers x ((p, q), n, o, h) = ((omega (arith, p), omega (arith, q)), n, o, h)

begun-IsSound :
    (f : Fixed) (x : EmRemoteExperience)
    → IsSound f x
    → IsSound (opened 1 f) (log begin_frame (log wait_frame x))
unfolding tally is_begin is_end is_acquire is_release released sent_ids
begun-IsSound f x ((p, q), n, o, h) = ((omega (arith, p), omega (arith, q)), n, o, h)

waited-IsSound : (f : Fixed) (x : EmRemoteExperience) → IsSound f x → IsSound f (log wait_frame x)
unfolding tally is_begin is_end is_acquire is_release released sent_ids
waited-IsSound f x ((p, q), n, o, h) = ((omega (arith, p), omega (arith, q)), n, o, h)

submit-IsSound :
    (f : Fixed) (e : FrameEnv) (i : InputState) (t : ℤ) (views : XrView × XrView) (r : Frame)
    → Keeps (IsSound (opened 1 f)) r
    → Keeps (IsSound f) (submit_frame e i t views r)
unfolding submit_frame
submit-IsSound f e i t views aborted s = tt
submit-IsSound f e i t views (finished r x) s =
    let ended = ended-IsSound f t _ x s in
    if-elim (Keeps (IsSound f)) e.end
      (if-elim (IsSound f) e.connected (report_pose-IsSound f e.report i _ ended) ended) ended

render_if-IsSound :
    (f : Fixed) (b : Bool) (e : FrameEnv) (t display : ℤ) (x : EmRemoteExperience)
    → IsSound f x
    → Keeps (IsSound f) (render_if b e t display x)
unfolding render_if
render_if-IsSound f true e t display x s = inner-IsSound f e t display x s
render_if-IsSound f false e t display x s = s

reopened :
    (f : Fixed) (x : EmRemoteExperience)
    → IsSound (opened 1 f) x
    → IsSound (opened 1 (opened 0 f)) x
reopened f x ((p, q), n, o, h) = ((omega (arith, p), q), n, o, h)

pub unopened : (f : Fixed) (x : EmRemoteExperience) → IsSound f x → IsSound (opened 0 f) x
unopened f x ((p, q), n, o, h) = ((omega (arith, p), q), n, o, h)

-- The frames without an end after one that got these answers.
abbrev misses : Option ℤ → Option (XrView × XrView) → Bool → ℕ
misses t views current = if not (is_some t) || not (is_some views) || not current then 1 else 0

begun_frame-IsSound :
    (f : Fixed) (e : FrameEnv) (i : InputState) (s : FrameState) (t : Option ℤ)
    (views : Option (XrView × XrView)) (x : EmRemoteExperience)
    → IsSound (opened 1 f) x
    → Keeps (IsSound (opened (misses t views e.make_current) f)) (begun e i s t views x)
unfolding begun
begun_frame-IsSound f e i s none views x h = h
begun_frame-IsSound f e i s (some t) none x h = h
begun_frame-IsSound f e i s (some t) (some views) x h = pick e.make_current
  where
    made : Frame
    made =
        submit_frame e i s.predicted_display_time views
          (render_if s.should_render e t s.predicted_display_time x)

    pick :
        (b : Bool)
        → Keeps
            (IsSound (opened (misses (some t) (some views) b) f))
            (if b then made else finished error_egl x)
    pick true =
        submit-IsSound (opened 0 f) e i _ views _
          (render_if-IsSound _ s.should_render e t _ x (reopened f x h))
    pick false = h

pub frame-IsSound :
    (f : Fixed) (e : FrameEnv) (i : InputState) (x : EmRemoteExperience)
    → IsSound f x
    → Keeps
        (IsSound (opened (if misses_end e then 1 else 0) f))
        (em_remote_experience_poll_and_render_frame e i x)
unfolding em_remote_experience_poll_and_render_frame waited
frame-IsSound f e i x s = pick e.wait
  where
    pick :
        (o : Option FrameState)
        → Keeps
            (IsSound (
              opened
                (if is_some o
                    && (not (is_some e.begin_time) || not (is_some e.views) || not e.make_current)
                  then 1
                  else 0)
                f))
            (waited e i o x)
    pick none = unopened f (log wait_frame x) (waited-IsSound f x s)
    pick (some t) =
        if-elim (Keeps (IsSound (opened (misses e.begin_time e.views e.make_current) f))) e.begin
          (begun_frame-IsSound f e i t e.begin_time e.views (log begin_frame (log wait_frame x))
            (begun-IsSound f x s))
          tt

-- ===== src/Source/References.antt =====
-- server/src/ems/gst/ems_gstreamer_src.c: the references to the frames that the buffers wrap.
use electric_maple.Common.{
  ℕ, ◌+◌, ◌≡◌, Bool, Option, none, some, List, [], ◌∷◌, ◌++◌, if◌then◌else◌,
}
use electric_maple.Source.{
  Source, XrtFormat, Push, aborted, dropped, pushed, ems_gstreamer_src_push_frame,
}

-- The source, the frames whose buffers are in the pipeline, the oldest first, and those that were taken and
-- given back.
pub record Frames : Type 0 where
  pub source : Source
  pub in_pipeline : List ℕ
  pub taken : List ℕ
  pub given_back : List ℕ

-- A push of a frame at a time, whether a meta can be added, with its format and message; or the pipeline
-- frees its oldest buffer.
pub data FrameOp : Type 0 where
  push : ℕ → Bool → XrtFormat → List ℕ → ℕ → FrameOp
  free_buffer : FrameOp

-- The buffer's destroy notification drops the frame.
abbrev pub wrapped_buffer_destroy : List ℕ → Frames → Frames
wrapped_buffer_destroy [] f = f
wrapped_buffer_destroy (x ∷ xs) f = record f { in_pipeline = xs; given_back = x ∷ f.given_back }

-- A push takes its frame before anything else; a buffer that is not pushed is not freed.
abbrev pub push_reference : Push → ℕ → Frames → Option Frames
push_reference aborted xf f = none
push_reference (dropped gs) xf f = some (record f { source = gs; taken = xf ∷ f.taken })
push_reference (pushed gs b) xf f =
    some (record f { source = gs; taken = xf ∷ f.taken; in_pipeline = f.in_pipeline ++ (xf ∷ []) })

unfoldable pub frame_step : FrameOp → Frames → Option Frames
frame_step (push now adds format payload xf) f =
    push_reference (ems_gstreamer_src_push_frame now adds format payload f.source) xf f
frame_step free_buffer f = some (wrapped_buffer_destroy f.in_pipeline f)

abbrev pub then_frames : (Frames → Option Frames) → Option Frames → Option Frames
then_frames g none = none
then_frames g (some f) = g f

unfoldable pub run_frames : List FrameOp → Frames → Option Frames
run_frames [] f = some f
run_frames (o ∷ os) f = then_frames (run_frames os) (frame_step o f)

-- The sum of a weight over frames, and over those of the pushes whose meta could not be added.
abbrev pub tally : (ℕ → ℕ) → List ℕ → ℕ
tally w [] = 0
tally w (x ∷ xs) = w x + tally w xs

abbrev pub lost : (ℕ → ℕ) → List FrameOp → ℕ
lost w [] = 0
lost w (push now adds format payload xf ∷ os) = if adds then lost w os else w xf + lost w os
lost w (free_buffer ∷ os) = lost w os

-- What is taken beyond what was given back and what is in the pipeline.
abbrev pub Owes : (ℕ → ℕ) → ℕ → Frames → Type 0
Owes w n f = tally w f.taken ≡ tally w f.given_back + tally w f.in_pipeline + n

abbrev owed : (ℕ → ℕ) → ℕ → FrameOp → ℕ
owed w n (push now adds format payload xf) = if adds then n else w xf + n
owed w n free_buffer = n

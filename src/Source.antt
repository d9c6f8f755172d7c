-- ===== src/Source.antt =====
-- server/src/ems/gst/ems_gstreamer_src.c: the frames that the compositor pushes into the pipeline.
pub mod Creation
pub mod References
use Prim.Native.String.{String}
use electric_maple.Common.{
  ℕ, ◌+◌, ◌-◌, ◌^◌, ◌≤◌, ◌<◌, ◌≡◌, refl, ap, Bool, true, Option, none, some, List, [], ◌∷◌, arith,
  if◌then◌else◌, ◌==◌,
}
use electric_maple.Common.Int.{sub_u64}

-- `enum xrt_format`, the formats that the file names and any other.
pub data XrtFormat : Type 0 where
  r8g8b8 r8g8b8a8 r8g8b8x8 yuyv422 l8 other_format : XrtFormat

pub data GstVideoFormat : Type 0 where
  rgb rgba rgbx yuy2 gray8 : GstVideoFormat

-- `none` is the failed assertion.
unfoldable pub gst_fmt_from_xf_format : XrtFormat → Option GstVideoFormat
gst_fmt_from_xf_format r8g8b8 = some rgb
gst_fmt_from_xf_format r8g8b8a8 = some rgba
gst_fmt_from_xf_format r8g8b8x8 = some rgbx
gst_fmt_from_xf_format yuyv422 = some yuy2
gst_fmt_from_xf_format l8 = some gray8
gst_fmt_from_xf_format other_format = none

-- The switch of `ems_gstreamer_src_create_with_pipeline`: the text of the caps' "format".
unfoldable pub format_str : XrtFormat → Option String
format_str r8g8b8 = some "RGB"
format_str r8g8b8a8 = some "RGBA"
format_str r8g8b8x8 = some "RGBx"
format_str yuyv422 = some "YUY2"
format_str l8 = some "GRAY8"
format_str other_format = none

-- `gst_video_format_to_string`
unfoldable pub format_name : GstVideoFormat → String
format_name rgb = "RGB"
format_name rgba = "RGBA"
format_name rgbx = "RGBx"
format_name yuy2 = "YUY2"
format_name gray8 = "GRAY8"

abbrev pub option_map : {A B : Type 0} → (A → B) → Option A → Option B
option_map f none = none
option_map f (some a) = some (f a)

-- Both switches accept the same formats, and the caps name the format that each frame is tagged with.
pub formats_agree :
    (format : XrtFormat)
    → format_str format ≡ option_map format_name (gst_fmt_from_xf_format format)
unfolding format_str format_name gst_fmt_from_xf_format
formats_agree r8g8b8 = refl
formats_agree r8g8b8a8 = refl
formats_agree r8g8b8x8 = refl
formats_agree yuyv422 = refl
formats_agree l8 = refl
formats_agree other_format = refl

-- `struct ems_gstreamer_src`: the times of the first frame and of the last.
pub record Source : Type 0 where
  pub offset_ns : ℕ
  pub timestamp_ns : ℕ

-- `U_TYPED_CALLOC`
abbrev pub new_source : Source
new_source = record { offset_ns = 0; timestamp_ns = 0 }

-- The buffer that goes to appsrc: its times, its format and the meta's "protobuf".
pub record Buffer : Type 0 where
  pub pts : ℕ
  pub duration : ℕ
  pub format : GstVideoFormat
  pub protobuf : List ℕ

-- How a push ends: a failed assertion, no meta could be added, or the buffer is pushed.
pub data Push : Type 0 where
  aborted : Push
  dropped : Source → Push
  pushed : Source → Buffer → Push

abbrev pub first_offset : ℕ → Source → ℕ
first_offset now gs = if gs.offset_ns == 0 then now else gs.offset_ns

unfoldable pub push_tagged : ℕ → Bool → List ℕ → GstVideoFormat → Source → Push
push_tagged now adds payload format gs =
    let gs' : Source = record { offset_ns = first_offset now gs; timestamp_ns = now } in
    if adds
    then pushed gs' (record {
      pts = sub_u64 now gs'.offset_ns;
      duration = sub_u64 now gs.timestamp_ns;
      format = format;
      protobuf = payload;
    })
    else dropped gs'

abbrev pub push_format : ℕ → Bool → List ℕ → Option GstVideoFormat → Source → Push
push_format now adds payload none gs = aborted
push_format now adds payload (some format) gs = push_tagged now adds payload format gs

-- `gst_buffer_new_memdup` aborts the program when it has no memory, so that branch has no counterpart.
-- A frame at the time `now`, whether a meta can be added, and the down message's bytes.
unfoldable pub ems_gstreamer_src_push_frame : ℕ → Bool → XrtFormat → List ℕ → Source → Push
ems_gstreamer_src_push_frame now adds xf_format payload gs =
    push_format now adds payload (gst_fmt_from_xf_format xf_format) gs

-- Frames in a format, pushed one after the other, each at a time and with a message: the buffers.
abbrev buffer_then : (Source → List Buffer) → Push → List Buffer
buffer_then f aborted = []
buffer_then f (dropped gs) = f gs
buffer_then f (pushed gs b) = b ∷ f gs

unfoldable pub push_frames : XrtFormat → List (ℕ × List ℕ) → Source → List Buffer
push_frames format [] gs = []
push_frames format ((now, payload) ∷ fs) gs =
    buffer_then (push_frames format fs) (ems_gstreamer_src_push_frame now true format payload gs)

-- The PTS of each buffer is the one before plus the buffer's own duration.
abbrev pub IsContiguous : ℕ → List Buffer → Type 0
IsContiguous pts [] = Unit
IsContiguous pts (b ∷ bs) = (b.pts ≡ pts + b.duration) × IsContiguous b.pts bs

-- The clock does not go back, and fits 64 bits.
abbrev pub IsForward : ℕ → List (ℕ × List ℕ) → Type 0
IsForward t [] = Unit
IsForward t ((now, payload) ∷ fs) = (t ≤ now) × (now < 2 ^ 64) × IsForward now fs

push_at :
    (format : GstVideoFormat) (now t0 t : ℕ) (payload : List ℕ)
    → 0 < t0
    → t0 ≤ t
    → t ≤ now
    → now < 2 ^ 64
    → push_tagged now true payload format (record { offset_ns = t0; timestamp_ns = t })
      ≡ pushed
          (record { offset_ns = t0; timestamp_ns = now })
          (record { pts = now - t0; duration = now - t; format = format; protobuf = payload })
unfolding push_tagged
push_at format now t0 t payload a b c d = ground arith

frames-IsContiguous :
    (x : XrtFormat) (format : GstVideoFormat) (t0 t : ℕ) (fs : List (ℕ × List ℕ))
    → gst_fmt_from_xf_format x ≡ some format
    → 0 < t0
    → t0 ≤ t
    → IsForward t fs
    → IsContiguous (t - t0) (push_frames x fs (record { offset_ns = t0; timestamp_ns = t }))
unfolding push_frames ems_gstreamer_src_push_frame
frames-IsContiguous x format t0 t [] e a b f = tt
frames-IsContiguous x format t0 t ((now, payload) ∷ fs) e a b (c, d, f) =
    rw (e, push_at format now t0 t payload a b c d)
      (omega arith, frames-IsContiguous x format t0 now fs e a (omega arith) f)

-- The messages of frames and of buffers.
unfoldable pub payloads : List (ℕ × List ℕ) → List (List ℕ)
payloads [] = []
payloads ((now, payload) ∷ fs) = payload ∷ payloads fs

unfoldable pub protobufs : List Buffer → List (List ℕ)
protobufs [] = []
protobufs (b ∷ bs) = b.protobuf ∷ protobufs bs

-- When every buffer gets its meta, every frame of a known format becomes a buffer with its own message, in
-- order.
pub frames_carry_messages :
    (x : XrtFormat) (format : GstVideoFormat) (fs : List (ℕ × List ℕ)) (gs : Source)
    → gst_fmt_from_xf_format x ≡ some format
    → protobufs (push_frames x fs gs) ≡ payloads fs
unfolding push_frames ems_gstreamer_src_push_frame push_tagged protobufs payloads
frames_carry_messages x format [] gs e = refl
frames_carry_messages x format ((now, payload) ∷ fs) gs e =
    rw e (ap (λ r. payload ∷ r) (frames_carry_messages x format fs _ e))

first_push :
    (format : GstVideoFormat) (now t0 : ℕ) (payload : List ℕ)
    → 0 < t0
    → t0 ≤ now
    → now < 2 ^ 64
    → push_tagged now true payload format (record { offset_ns = t0; timestamp_ns = 0 })
      ≡ pushed
          (record { offset_ns = t0; timestamp_ns = now })
          (record { pts = now - t0; duration = now; format = format; protobuf = payload })
unfolding push_tagged
first_push format now t0 payload a b h = ground arith

-- The first buffer has the given times, and the PTS of every other is the one before plus its own
-- duration.
abbrev pub IsTimeline : ℕ → ℕ → List Buffer → Type 0
IsTimeline pts duration [] = ⊥
IsTimeline pts duration (b ∷ bs) = (b.pts ≡ pts) × (b.duration ≡ duration) × IsContiguous b.pts bs

-- From a source whose offset was set to `t0` and that has no frame yet, which is how the compositor leaves
-- it, when every buffer gets its meta, frames of a known format at times that begin at or after `t0`, do not
-- go back and stay below 2^64 ns give a first buffer whose PTS is the time since `t0` but whose duration is
-- the whole clock, and then buffers whose PTS is the PTS of the one before plus their own duration.
pub push_frames-IsTimeline :
    (x : XrtFormat) (format : GstVideoFormat) (t0 now : ℕ) (payload : List ℕ)
    (fs : List (ℕ × List ℕ))
    → gst_fmt_from_xf_format x ≡ some format
    → 0 < t0
    → IsForward t0 ((now, payload) ∷ fs)
    → IsTimeline
        (now - t0)
        now
        (push_frames x ((now, payload) ∷ fs) (record { offset_ns = t0; timestamp_ns = 0 }))
unfolding push_frames ems_gstreamer_src_push_frame
push_frames-IsTimeline x format t0 now payload fs e a (c, d, f) =
    rw (e, first_push format now t0 payload a c d)
      (refl, refl, frames-IsContiguous x format t0 now fs e a c f)

-- ===== src/Tests/Frames.antt =====
-- The theorems of the frames and their messages at concrete values.
use electric_maple.Common.{
  ℕ, ◌≡◌, refl, Bool, true, false, none, some, List, [], ◌∷◌, length, leb, arith, ◌≤◌,
}
use electric_maple.Common.Int.{pos}
use electric_maple.Stream.{StreamClient, Sample, texture_external_oes, em_stream_client_init}
use electric_maple.Stream.Pull.{PullEnv}
use electric_maple.Stream.Samples.{World, Op, arrive, pull, release}
use electric_maple.Stream.Arrivals.{Arrivals}
use electric_maple.Pipeline.{Preserved, max_size}
use electric_maple.Pipeline.Travel.{Frame, stream, own_metas, messages_travel}
use electric_maple.Source.{
  r8g8b8a8, rgba, gst_fmt_from_xf_format, push_frames, IsTimeline, push_frames-IsTimeline,
}

abbrev playing_client : StreamClient
playing_client = record (em_stream_client_init (pos 50)) { pipeline = true; appsink = true }

abbrev sample_of : ℕ → Sample
sample_of k = record { id = k; meta = none; texture = 3; target = some texture_external_oes }

abbrev clocks : PullEnv
clocks = record {
  current_time = pos 90;
  now_ns = pos 100;
  render_begin = pos 110;
  server_clock_offset = pos 5;
  decode = λ _. none;
  float_quotient = λ total n. total;
}

-- Two samples arrive, a pull takes the second, a third arrives, and the frame is released.
abbrev ops : List Op
ops =
    arrive (pos 60) (sample_of 1)
    ∷ arrive (pos 70) (sample_of 2)
    ∷ pull clocks
    ∷ arrive (pos 80) (sample_of 3)
    ∷ release
    ∷ []

abbrev start : World
start = record { client = playing_client; frames = []; handed = []; unrefd = [] }

abbrev end_client : StreamClient
end_client = record playing_client {
  sample = some (sample_of 3);
  sample_decode_end_time = pos 80;
  received_first_frame = true;
  gst_gl_gstreamer_context = true;
  frame_texture_target = texture_external_oes;
}

abbrev finish : World
finish = record {
  client = end_client;
  frames = [];
  handed = sample_of 3 ∷ sample_of 2 ∷ sample_of 1 ∷ [];
  unrefd = sample_of 2 ∷ sample_of 1 ∷ [];
}

abbrev arrivals : Arrivals
arrivals = (pos 60, sample_of 1) ∷ (pos 70, sample_of 2) ∷ []

-- The first frame loses its first packet.
abbrev frames : List Frame
frames =
    record { message = 8 ∷ 1 ∷ []; arrives = false ∷ true ∷ true ∷ []; receive_time = pos 200 }
    ∷ record { message = 8 ∷ 2 ∷ 3 ∷ []; arrives = true ∷ []; receive_time = pos 300 }
    ∷ []

abbrev empty_array : Preserved
empty_array = record { preserved_metadata = []; preserved_metadata_size = 0 }

abbrev fits : List ℕ → Bool
fits bytes = leb (length bytes) max_size

fits_lem : (bytes : List ℕ) → length bytes ≤ max_size → fits bytes ≡ true
fits_lem bytes h = ground arith

abbrev bare_client : StreamClient
bare_client = record playing_client { preserved_metadata_struct_buf = none }

messages_travel_example : stream fits frames empty_array bare_client ≡ own_metas frames
messages_travel_example =
    messages_travel fits frames empty_array bare_client fits_lem
      ((omega arith, refl), ((omega arith, refl), tt)) refl

rgba_lem : gst_fmt_from_xf_format r8g8b8a8 ≡ some rgba
unfolding gst_fmt_from_xf_format
rgba_lem = refl

push_frames-IsTimeline_example : IsTimeline 10 1000 (
    push_frames r8g8b8a8
      ((1000, 8 ∷ []) ∷ (1016, 9 ∷ []) ∷ (1033, 7 ∷ []) ∷ [])
      (record { offset_ns = 990; timestamp_ns = 0 }))
push_frames-IsTimeline_example =
    push_frames-IsTimeline r8g8b8a8 rgba 990 1000 (8 ∷ []) ((1016, 9 ∷ []) ∷ (1033, 7 ∷ []) ∷ [])
      rgba_lem (omega arith)
      (omega arith, omega arith, (omega arith, omega arith, (omega arith, omega arith, tt)))

-- ===== src/Stream/Probes.antt =====
-- client/src/em/em_stream_client.c: the probes that only watch the packets, the statistics that are
-- printed, and where `on_need_pipeline_cb` puts the probes of the RTP sources.
use electric_maple.Common.{
  ℕ, ◌+◌, ◌*◌, ◌%◌, ◌^◌, Bool, ◌&&◌, Option, none, some, List, [], ◌∷◌, ◌++◌, if◌then◌else◌,
}
use electric_maple.Common.Int.{ℤ, pos, ltℤ, ◌-ℤ◌}
use electric_maple.Stream.{StreamClient}

-- The sequence number of an RTP packet: its bytes 2 and 3, the high one first, if there are 12 at least.
abbrev pub seq_num : List ℕ → Option ℕ
seq_num (b0 ∷ b1 ∷ hi ∷ lo ∷ b4 ∷ b5 ∷ b6 ∷ b7 ∷ b8 ∷ b9 ∷ b10 ∷ b11 ∷ rest) =
    some ((hi * 256 + lo) % 2 ^ 16)
seq_num _ = none

abbrev pub seq_or : Option ℕ → ℕ → ℕ
seq_or none prev = prev
seq_or (some n) prev = n

-- The packet's bytes, if it can be mapped, and the static sequence number before it.
unfoldable pub video_rtp_probe : Option (List ℕ) → ℕ → ℕ
video_rtp_probe none prev_seq_num_video = prev_seq_num_video
video_rtp_probe (some bytes) prev_seq_num_video = seq_or (seq_num bytes) prev_seq_num_video

unfoldable pub audio_rtp_probe : Option (List ℕ) → ℕ → ℕ
audio_rtp_probe none prev_seq_num_audio = prev_seq_num_audio
audio_rtp_probe (some bytes) prev_seq_num_audio = seq_or (seq_num bytes) prev_seq_num_audio

-- Four bytes are written to a variable of two, if the structure has the number.
pub data Seen : Type 0 where
  passes overruns : Seen

-- Whether the event is a custom one that goes downstream and is named GstRTPPacketLost, and whether it has
-- an unsigned "seqnum".
unfoldable pub jitterbuffer_event_probe_cb : Bool → Bool → Bool → Seen
jitterbuffer_event_probe_cb custom lost has_seqnum =
    if custom && (lost && has_seqnum) then overruns else passes

-- The values of the audio sink and of the jitter buffer that are printed.
pub record AudioSink : Type 0 where
  pub buffer_time : ℕ
  pub latency_time : ℕ
  pub provide_clock : Bool

pub data Printed : Type 0 where
  audio : AudioSink → Printed
  percent : ℤ → Printed
  pushed : ℕ → Printed
  lost : ℕ → Printed
  avg_jitter : ℕ → Printed

-- The client, which may be NULL, and the sink that its pipeline has; the timer goes on.
unfoldable pub check_pipeline_dot_data : Option StreamClient → Option AudioSink → List Printed
check_pipeline_dot_data none sink = []
check_pipeline_dot_data (some sc) none = []
check_pipeline_dot_data (some sc) (some sink) = if sc.pipeline then audio sink ∷ [] else []

-- The numbers that the statistics have.
pub record JitterStats : Type 0 where
  pub num_pushed : Option ℕ
  pub num_lost : Option ℕ
  pub jitter : Option ℕ

abbrev pub print_one : (ℕ → Printed) → Option ℕ → List Printed
print_one f none = []
print_one f (some n) = f n ∷ []

abbrev pub print_stats : Option JitterStats → List Printed
print_stats none = []
print_stats (some s) =
    print_one pushed s.num_pushed ++ (print_one lost s.num_lost ++ print_one avg_jitter s.jitter)

-- The jitter buffer, which may be NULL, with its percentage and statistics; the timer goes on.
unfoldable pub print_jitterbuffter_stats : Option (ℤ × Option JitterStats) → List Printed
print_jitterbuffter_stats none = []
print_jitterbuffter_stats (some (p, stats)) = percent p ∷ print_stats stats

-- Each jitter buffer gets a timer, whose id is not kept.
unfoldable pub new_jitterbuffer_callback : ℕ → List ℕ → List ℕ
new_jitterbuffer_callback jitterbuffer timers = jitterbuffer ∷ timers

-- The pads that get a probe.
pub data ProbedPad : Type 0 where
  video_udpsrc_src audio_udpsrc_src audio_depay_src : ProbedPad

abbrev pub probe_if : Bool → ProbedPad → List ProbedPad
probe_if found pad = if found then pad ∷ [] else []

-- Whether each pad is found.
unfoldable pub watch_sources : Bool → Bool → Bool → List ProbedPad
watch_sources video audio_src depay =
    probe_if video video_udpsrc_src
    ++ (probe_if audio_src audio_udpsrc_src ++ probe_if depay audio_depay_src)

-- The greatest latency of the jitter buffer; `scaled` is one and a half of the average in milliseconds,
-- computed in floats and cast to an int.
unfoldable pub em_stream_client_adjust_jitterbuffer : (ℤ → ℤ) → StreamClient → ℤ → ℤ
em_stream_client_adjust_jitterbuffer scaled sc max_jitter_latency =
    let target_jitter_latency = scaled sc.average_latency in
    let lowered = max_jitter_latency -ℤ pos 10 in
    if ltℤ target_jitter_latency lowered then lowered else target_jitter_latency

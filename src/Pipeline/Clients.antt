-- ===== src/Pipeline/Clients.antt =====
-- server/src/ems/gst/ems_gstreamer_pipeline.c: the clients of the pipeline, their descriptions and
-- candidates.
use Prim.Native.String.{String}
use electric_maple.Common.{
  ℕ, suc, ◌+◌, ◌≡◌, Bool, true, Option, none, some, List, [], ◌∷◌, arith, if◌then◌else◌, length,
}
use electric_maple.Connection.Messages.{Sdp}

-- What the callbacks ask of the pipeline's elements.
pub data Ask : Type 0 where
  set_remote_description : ℕ → Option String → Ask
  add_ice_candidate : ℕ → ℕ → String → Ask
  crash : Ask

module _ (s : Sdp) (webrtcbin_for : ℕ → Option ℕ) where
  abbrev pub describe : Option ℕ → Option String → List Ask
  describe none sdp = []
  describe (some bin) sdp = set_remote_description bin sdp ∷ []

  -- An answer, which may be NULL, of the client; `webrtcbin_for` finds the client's element in the pipeline.
  unfoldable pub webrtc_sdp_answer_cb : ℕ → Option String → List Ask
  webrtc_sdp_answer_cb client sdp =
      if s.parses sdp
      then if s.describes sdp then describe (webrtcbin_for client) sdp else []
      else []

  abbrev pub add_to : Option ℕ → ℕ → String → List Ask
  add_to none mlineindex candidate = []
  add_to (some bin) mlineindex candidate = add_ice_candidate bin mlineindex candidate ∷ []

  -- `strlen` of NULL dereferences it; `is_empty` is `strlen` 0.
  unfoldable pub webrtc_candidate_cb : (String → Bool) → ℕ → ℕ → Option String → List Ask
  webrtc_candidate_cb is_empty client mlineindex none = crash ∷ []
  webrtc_candidate_cb is_empty client mlineindex (some candidate) =
      if is_empty candidate then [] else add_to (webrtcbin_for client) mlineindex candidate

-- Where the stream goes, how often the payloader's pads have the program's two probes, and the timers.
pub record Sinks : Type 0 where
  pub video_host : Option String
  pub audio_host : Option String
  pub sink_probes : ℕ
  pub src_probes : ℕ
  pub timers : ℕ

-- Whether the payloader is there, and its two pads.
pub record Payloader : Type 0 where
  pub rtppay : Bool
  pub sink_pad : Bool
  pub src_pad : Bool

unfoldable pub ems_gstreamer_pipeline_add_payload_pad_probe : Payloader → Sinks → Sinks
ems_gstreamer_pipeline_add_payload_pad_probe p k =
    if p.rtppay
    then if p.sink_pad
      then if p.src_pad
        then record k { sink_probes = k.sink_probes + 1; src_probes = k.src_probes + 1 }
        else record k { sink_probes = k.sink_probes + 1 }
      else k
    else k

-- The build without WebRTC; both udpsinks are in the pipeline that the file creates.
unfoldable pub webrtc_client_connected_cb : Payloader → String → Sinks → Sinks
webrtc_client_connected_cb p client_address k =
    let sent =
      ems_gstreamer_pipeline_add_payload_pad_probe p
        (record k { video_host = some client_address; audio_host = some client_address }) in
    record sent { timers = k.timers + 1 }

unfoldable pub connect_all : Payloader → List String → Sinks → Sinks
connect_all p [] k = k
connect_all p (a ∷ rest) k = connect_all p rest (webrtc_client_connected_cb p a k)

-- The address of the last client, or the host before.
unfoldable pub last_host : List String → Option String → Option String
last_host [] h = h
last_host (a ∷ rest) h = last_host rest (some a)

connected_lem :
    (p : Payloader) (a : String) (k : Sinks)
    → p.rtppay ≡ true
    → p.sink_pad ≡ true
    → p.src_pad ≡ true
    → webrtc_client_connected_cb p a k ≡ record {
      video_host = some a;
      audio_host = some a;
      sink_probes = k.sink_probes + 1;
      src_probes = k.src_probes + 1;
      timers = k.timers + 1;
    }
unfolding webrtc_client_connected_cb ems_gstreamer_pipeline_add_payload_pad_probe
connected_lem p a k x y z = rw (x, y, z)

sum_lem : (a n : ℕ) → a + 1 + n ≡ a + suc n
sum_lem a n = omega arith

add_zero : (a : ℕ) → a + 0 ≡ a
add_zero a = omega arith

-- When the payloader and its pads are there, after clients have connected one after the other the video and
-- the audio both go to the last of them, and each connection has added a probe to each of the pads, and a
-- timer.
pub connections_accumulate :
    (p : Payloader) (rest : List String) (k : Sinks)
    → p.rtppay ≡ true
    → p.sink_pad ≡ true
    → p.src_pad ≡ true
    → connect_all p rest k ≡ record {
      video_host = last_host rest k.video_host;
      audio_host = last_host rest k.audio_host;
      sink_probes = k.sink_probes + length rest;
      src_probes = k.src_probes + length rest;
      timers = k.timers + length rest;
    }
unfolding connect_all last_host
connections_accumulate p [] k x y z =
    rw (add_zero k.sink_probes, add_zero k.src_probes, add_zero k.timers)
connections_accumulate p (a ∷ rest) k x y z = rw (
  connected_lem p a k x y z,
  connections_accumulate p rest _ x y z,
  sum_lem k.sink_probes (length rest),
  sum_lem k.src_probes (length rest),
  sum_lem k.timers (length rest),
)

-- ===== src/Stream/Pull.antt =====
-- client/src/em/em_stream_client.c: how the renderer pulls a frame, with its message and its clocks.
use electric_maple.Common.{
  ℕ, ◌+◌, ◌%◌, ◌^◌, true, Option, none, some, List, [], ◌∷◌, ◌++◌, ◌==◌, if◌then◌else◌, length,
}
use electric_maple.Common.Int.{ℤ, pos, is_zero, wrap64, ltℤ, ◌+ℤ◌, ◌-ℤ◌}
use electric_maple.Stream.{
  StreamClient, Sample, Pose, FrameData, DownMessage, CustomMeta, TextureTarget, unset_target,
  pose_to_openxr,
}

-- `struct em_sc_sample`: an unset field of the zeroed memory is 0 or `none`.
pub record EmSample : Type 0 where
  pub sample : Sample
  pub poses : Option (Pose × Pose)
  pub frame_sequence_id : ℤ
  pub server_render_begin_time : ℤ
  pub server_push_time : ℤ
  pub client_receive_time : ℤ
  pub client_decode_time : ℤ
  pub client_render_begin_time : ℤ
  pub frame_texture_id : ℕ
  pub frame_texture_target : TextureTarget

-- The clocks during a pull, the connection's clock offset, the protobuf decoder, and the conversion
-- of a quotient of floats to int64_t (the sum of the latencies over their number).
pub record PullEnv : Type 0 where
  pub current_time : ℤ
  pub now_ns : ℤ
  pub render_begin : ℤ
  pub server_clock_offset : ℤ
  pub decode : List ℕ → Option DownMessage
  pub float_quotient : ℤ → ℕ → ℤ

unfoldable pub total_sum : List ℤ → ℤ
total_sum [] = pos 0
total_sum (l ∷ ls) = wrap64 (l +ℤ total_sum ls)

unfoldable pub calculate_average_of_gint64 : (ℤ → ℕ → ℤ) → List ℤ → ℤ
calculate_average_of_gint64 float_quotient ls =
    if length ls == 0 then pos 0 else float_quotient (total_sum ls) (length ls)

unfoldable pub em_stream_client_get_average_frame_latency :
    (ℤ → ℕ → ℤ) → StreamClient → StreamClient × ℤ
em_stream_client_get_average_frame_latency float_quotient sc = (
  record sc { latency_collection = [] },
  calculate_average_of_gint64 float_quotient sc.latency_collection,
)

-- The message and the receive time, 0 where it is not an int64.
unfoldable pub read_down_message_from_custom_meta :
    (List ℕ → Option DownMessage) → Option CustomMeta → Option DownMessage × ℤ
read_down_message_from_custom_meta decode none = (none, pos 0)
read_down_message_from_custom_meta decode (some m) = read_fields m.protobuf m.frame_receive_time
  where
    read_fields : Option (List ℕ) → Option ℤ → Option DownMessage × ℤ
    read_fields none t = (none, pos 0)
    read_fields (some bytes) none = (decode bytes, pos 0)
    read_fields (some bytes) (some t) = (decode bytes, t)

-- The message of a pulled frame: the last one when its own cannot be read.
unfoldable pub message_or_last : Option DownMessage → StreamClient → DownMessage
message_or_last none sc = sc.last_down_msg
message_or_last (some m) sc = m

unfoldable pub query_average : PullEnv → StreamClient × ℤ → StreamClient
query_average e (sc, average) = record sc {
  latency_last_time_query = e.now_ns;
  average_latency = average;
}

unfoldable pub query_if_due : PullEnv → StreamClient → StreamClient
query_if_due e sc =
    if ltℤ sc.latency_calculation_window (wrap64 (e.now_ns -ℤ sc.latency_last_time_query))
    then query_average e (em_stream_client_get_average_frame_latency e.float_quotient sc)
    else sc

-- The latency statistics of a frame.
unfoldable pub record_latency : PullEnv → FrameData → StreamClient → StreamClient
record_latency e d sc =
    let latency = wrap64 (e.current_time -ℤ d.frame_push_clock_time) in
    query_if_due e (record sc { latency_collection = sc.latency_collection ++ (latency ∷ []) })

-- The offset in use: the connection's, or without it the difference of the two pipeline offsets.
unfoldable pub clock_offset : PullEnv → FrameData → ℤ
clock_offset e d =
    if is_zero e.server_clock_offset
    then wrap64 (wrap64 (e.now_ns -ℤ e.current_time) -ℤ d.server_system_clock_pipeline_clock_offset)
    else e.server_clock_offset

unfoldable pub on_client_clock : ℤ → ℤ → ℤ
on_client_clock offset t = if is_zero offset then pos 0 else wrap64 (offset +ℤ t)

unfoldable pub blank_sample : PullEnv → Sample → EmSample
blank_sample e s = record {
  sample = s;
  poses = none;
  frame_sequence_id = pos 0;
  server_render_begin_time = pos 0;
  server_push_time = pos 0;
  client_receive_time = pos 0;
  client_decode_time = pos 0;
  client_render_begin_time = e.render_begin;
  frame_texture_id = s.texture;
  frame_texture_target = unset_target;
}

unfoldable pub posed_sample : PullEnv → FrameData → ℤ → ℤ → Sample → EmSample
posed_sample e d receive_time decode_end_time s = record (blank_sample e s) {
  poses = some (pose_to_openxr d.view_pose0, pose_to_openxr d.view_pose1);
  frame_sequence_id = d.frame_sequence_id;
  server_render_begin_time = on_client_clock (clock_offset e d) d.render_begin_time;
  server_push_time = on_client_clock (clock_offset e d) d.frame_push_time;
  client_receive_time = receive_time;
  client_decode_time = decode_end_time;
}

-- The part of a pull under `msg.has_frame_data && msg.frame_data.view_poses_count == 2`.
unfoldable pub fill_sample :
    PullEnv → DownMessage → Option FrameData → ℤ → Sample → StreamClient → StreamClient × EmSample
fill_sample e msg none receive_time s sc = (sc, blank_sample e s)
fill_sample e msg (some d) receive_time s sc =
    if d.view_poses_count == 2
    then (
      record (record_latency e d sc) { last_down_msg = msg },
      posed_sample e d receive_time sc.sample_decode_end_time s,
    )
    else (sc, blank_sample e s)

-- How a pull ends: without a frame, with one, or in the assertion on the texture target.
pub data Pull : Type 0 where
  nothing : StreamClient → Pull
  pulled : EmSample → StreamClient → Pull
  not_reached : Pull

-- The first frame also takes GStreamer's context, which the query finds, and the texture target of the caps.
unfoldable pub first_target : Option TextureTarget → EmSample → StreamClient → Pull
first_target none r sc = not_reached
first_target (some t) r sc =
    pulled (record r { frame_texture_target = t })
      (record sc { gst_gl_gstreamer_context = true; frame_texture_target = t })

unfoldable pub set_target : Sample → EmSample → StreamClient → Pull
set_target s r sc =
    if sc.gst_gl_gstreamer_context
    then pulled (record r { frame_texture_target = sc.frame_texture_target }) sc
    else first_target s.target r sc

unfoldable pub finish_pull : Sample → StreamClient × EmSample → Pull
finish_pull s (sc, r) = set_target s r sc

unfoldable pub read_sample : PullEnv → Sample → Option DownMessage × ℤ → StreamClient → Pull
read_sample e s (m, receive_time) sc =
    let msg = message_or_last m sc in
    finish_pull s (fill_sample e msg msg.frame_data receive_time s sc)

unfoldable pub pull_slot : PullEnv → Option Sample → StreamClient → Pull
pull_slot e none sc = nothing (record sc { skipped_frames = (sc.skipped_frames + 1) % 2 ^ 32 })
pull_slot e (some s) sc =
    read_sample e s (read_down_message_from_custom_meta e.decode s.meta)
      (record sc { sample = none; skipped_frames = 0 })

unfoldable pub em_stream_client_try_pull_sample : PullEnv → StreamClient → Pull
em_stream_client_try_pull_sample e sc = if sc.appsink then pull_slot e sc.sample sc else nothing sc

-- Releasing a frame unrefs its sample.
unfoldable pub em_stream_client_release_sample : EmSample → List Sample
em_stream_client_release_sample r = r.sample ∷ []

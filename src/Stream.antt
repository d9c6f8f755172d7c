-- ===== src/Stream.antt =====
-- client/src/em/em_stream_client.c: the decoded samples, the metadata of the frames, and the frames that
-- the renderer pulls. The mutexes make each function below one step.
pub mod Metadata
pub mod Probes
pub mod Pull
pub mod Arrivals
pub mod Samples
pub mod Taking
pub mod Mailbox
pub mod Bus
pub mod Lifecycle
pub mod Life
use electric_maple.Common.{
  ℕ, Bool, true, false, Option, none, some, List, [], ◌∷◌, leb, if◌then◌else◌,
}
use electric_maple.Common.Int.{ℤ, pos}

-- Floats are their bits.
pub record Quaternion : Type 0 where
  pub x : ℕ
  pub y : ℕ
  pub z : ℕ
  pub w : ℕ

pub record Vec3 : Type 0 where
  pub x : ℕ
  pub y : ℕ
  pub z : ℕ

-- `em_proto_Pose`, with its `has_` flags as options.
pub record ProtoPose : Type 0 where
  pub position : Option Vec3
  pub orientation : Option Quaternion

-- `XrPosef`.
pub record Pose : Type 0 where
  pub orientation : Quaternion
  pub position : Vec3

-- 1.0f
abbrev pub one_bits : ℕ
one_bits = 1065353216

unfoldable pub quat_to_openxr : Option Quaternion → Quaternion
quat_to_openxr none = record { x = 0; y = 0; z = 0; w = one_bits }
quat_to_openxr (some q) = q

unfoldable pub vec3_to_openxr : Option Vec3 → Vec3
vec3_to_openxr none = record { x = 0; y = 0; z = 0 }
vec3_to_openxr (some v) = v

unfoldable pub pose_to_openxr : ProtoPose → Pose
pose_to_openxr p = record {
  orientation = quat_to_openxr p.orientation;
  position = vec3_to_openxr p.position;
}

-- `em_proto_DownFrameDataMessage`, with the poses that the client reads.
pub record FrameData : Type 0 where
  pub frame_sequence_id : ℤ
  pub view_poses_count : ℕ
  pub view_pose0 : ProtoPose
  pub view_pose1 : ProtoPose
  pub render_begin_time : ℤ
  pub frame_push_time : ℤ
  pub frame_push_clock_time : ℤ
  pub server_system_clock_pipeline_clock_offset : ℤ

-- `em_proto_DownMessage`: `has_frame_data` as an option.
pub record DownMessage : Type 0 where
  pub frame_data : Option FrameData

-- The custom meta "down-message" of a buffer: its buffer "protobuf", if it is there and can be mapped,
-- and its "frame-receive-time", if it is an int64.
pub record CustomMeta : Type 0 where
  pub protobuf : Option (List ℕ)
  pub frame_receive_time : Option ℤ

pub data TextureTarget : Type 0 where
  unset_target texture_external_oes texture_2d : TextureTarget

-- A `GstSample`: a number that stands for the pointer, its buffer's meta and texture, and the texture
-- target that its caps name (`none` is any other text).
pub record Sample : Type 0 where
  pub id : ℕ
  pub meta : Option CustomMeta
  pub texture : ℕ
  pub target : Option TextureTarget

pub record StreamClient : Type 0 where
  pub pipeline : Bool
  pub appsink : Bool
  pub gst_gl_gstreamer_context : Bool
  pub frame_texture_target : TextureTarget
  pub pipeline_is_running : Bool
  pub received_first_frame : Bool
  pub sample : Option Sample
  pub sample_decode_end_time : ℤ
  pub skipped_frames : ℕ
  pub last_down_msg : DownMessage
  pub preserved_metadata_struct_buf : Option (List ℕ)
  pub latency_collection : List ℤ
  pub latency_calculation_window : ℤ
  pub latency_last_time_query : ℤ
  pub average_latency : ℤ

-- `time_s_to_ns(3)`
abbrev pub three_seconds : ℤ
three_seconds = pos 3000000000

-- The zeroed object after `em_stream_client_init`, at the time `now`.
unfoldable pub em_stream_client_init : ℤ → StreamClient
em_stream_client_init now = record {
  pipeline = false;
  appsink = false;
  gst_gl_gstreamer_context = false;
  frame_texture_target = unset_target;
  pipeline_is_running = false;
  received_first_frame = false;
  sample = none;
  sample_decode_end_time = pos 0;
  skipped_frames = 0;
  last_down_msg = record { frame_data = none };
  preserved_metadata_struct_buf = none;
  latency_collection = [];
  latency_calculation_window = three_seconds;
  latency_last_time_query = now;
  average_latency = pos 0;
}

-- `drop_frame` starts false, and the only branch that sets it sets it to false.
unfoldable pub drop_frame : StreamClient → Bool
drop_frame sc = if leb 10 sc.skipped_frames then false else false

-- The samples that are released when a sample leaves the slot.
abbrev pub unref : Option Sample → List Sample
unref none = []
unref (some s) = s ∷ []

-- A new sample at the time `now`; the list holds what it unrefs.
unfoldable pub on_new_sample_cb : ℤ → Sample → StreamClient → StreamClient × List Sample
on_new_sample_cb now s sc = if drop_frame sc then (sc, []) else (
  record sc { sample = some s; sample_decode_end_time = now; received_first_frame = true },
  unref sc.sample,
)

unfoldable pub on_drop_pipeline_cb : StreamClient → StreamClient
on_drop_pipeline_cb sc = record sc { pipeline = false; appsink = false }

-- What stopping does besides: whether it stops the thread and waits, whether it disconnects.
pub record Stopped : Type 0 where
  pub client : StreamClient
  pub thread_stopped : Bool
  pub disconnected : Bool

unfoldable pub em_stream_client_stop : Bool → StreamClient → Stopped
em_stream_client_stop connection sc = record {
  client = record sc {
    pipeline = false;
    appsink = false;
    gst_gl_gstreamer_context = false;
    pipeline_is_running = false;
  };
  thread_stopped = sc.pipeline;
  disconnected = connection;
}

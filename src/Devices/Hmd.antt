-- ===== src/Devices/Hmd.antt =====
-- server/src/ems/ems_hmd.cpp: the head-mounted display, in the build without USE_PREDICTION.
use electric_maple.Common.{ℕ, Bool, true, false, Option, none, some, List, [], ◌∷◌, if◌then◌else◌}
use electric_maple.Common.Int.{ℤ, pos, ◌+ℤ◌}
use electric_maple.Config.{DeviceConfig, Fov}
use electric_maple.Stream.{Pose, ProtoPose, Quaternion, Vec3}
use electric_maple.Proto.{TrackingMessage}
use electric_maple.Devices.{Event, UpMessageSuper}

-- The results of a device's functions.
pub data XrtResult : Type 0 where
  success input_unsupported pose_not_active : XrtResult

-- The input names that the devices know, and any other.
pub data InputName : Type 0 where
  generic_head_pose trigger_value menu_click grip_pose aim_pose : InputName
  unobstructed_left unobstructed_right : InputName
  other_input : ℕ → InputName

-- `XRT_SPACE_RELATION_…_BIT`
pub data RelationFlag : Type 0 where
  orientation_valid position_valid orientation_tracked position_tracked : RelationFlag

-- `struct xrt_space_relation`, without velocities.
pub record SpaceRelation : Type 0 where
  pub pose : Pose
  pub relation_flags : List RelationFlag

-- `struct ems_hmd`, with what it has received.
pub record Hmd : Type 0 where
  pub pose : Pose
  pub received_pose : Pose
  pub updated : Bool

-- The fields of a submessage that is absent are 0.
unfoldable pub position_or_zero : Option Vec3 → Vec3
position_or_zero none = record { x = 0; y = 0; z = 0 }
position_or_zero (some v) = v

unfoldable pub orientation_or_zero : Option Quaternion → Quaternion
orientation_or_zero none = record { x = 0; y = 0; z = 0; w = 0 }
orientation_or_zero (some q) = q

unfoldable pub to_xrt_vec3 : Option Vec3 → Vec3
to_xrt_vec3 v = position_or_zero v

unfoldable pub receive_pose : Option ProtoPose → Hmd → Hmd
receive_pose none eh = eh
receive_pose (some p) eh = record eh {
  received_pose = record {
    orientation = orientation_or_zero p.orientation;
    position = to_xrt_vec3 p.position;
  };
  updated = true;
}

unfoldable pub receive_tracking : Option TrackingMessage → Hmd → Hmd
receive_tracking none eh = eh
receive_tracking (some t) eh = receive_pose t.head_pose eh

unfoldable pub ems_hmd_handle_data : Event → UpMessageSuper → Hmd → Hmd
ems_hmd_handle_data event m eh = receive_tracking m.proto_message.tracking eh

abbrev pub normalized : (Quaternion → Quaternion) → Pose → Pose
normalized normalize p = record p { orientation = normalize p.orientation }

-- Under the lock: takes over the received pose, normalized.
abbrev pub take_received : (Quaternion → Quaternion) → Hmd → Hmd
take_received normalize eh = record eh {
  pose = normalized normalize eh.received_pose;
  updated = false;
}

unfoldable pub update_pose : (Quaternion → Quaternion) → Hmd → Hmd
update_pose normalize eh = if eh.updated then take_received normalize eh else eh

-- What is written to `out_relation`.
abbrev pub tracked_relation : Hmd → SpaceRelation
tracked_relation eh = record {
  pose = eh.pose;
  relation_flags = orientation_valid ∷ position_valid ∷ orientation_tracked ∷ [];
}

-- The result with the relation, if it is written; `math_quat_normalize` is a parameter.
unfoldable pub ems_hmd_get_tracked_pose :
    (Quaternion → Quaternion) → InputName → Hmd → Hmd × XrtResult × Option SpaceRelation
ems_hmd_get_tracked_pose normalize generic_head_pose eh =
    let updated_hmd = update_pose normalize eh in
    (updated_hmd, success, some (tracked_relation updated_hmd))
ems_hmd_get_tracked_pose normalize _ eh = (eh, input_unsupported, none)

unfoldable pub ems_hmd_update_inputs : Hmd → Hmd × XrtResult
ems_hmd_update_inputs eh = (eh, success)

-- 1.6f
abbrev eye_height_bits : ℕ
eye_height_bits = 1070386381

abbrev identity : Quaternion
identity = record { x = 0; y = 0; z = 0; w = 1065353216 }

-- The zeroed memory with the initial pose.
unfoldable pub ems_hmd_create : Hmd
ems_hmd_create = record {
  pose = record { orientation = identity; position = record { x = 0; y = eye_height_bits; z = 0 } };
  received_pose = record {
    orientation = record { x = 0; y = 0; z = 0; w = 0 };
    position = record { x = 0; y = 0; z = 0 };
  };
  updated = false;
}

-- The part of an `xrt_hmd_parts` that the config determines.
pub record HmdView : Type 0 where
  pub w_pixels : ℤ
  pub h_pixels : ℤ
  pub viewport_x : ℤ
  pub viewport_y : ℤ
  pub viewport_w : ℤ
  pub viewport_h : ℤ

pub record HmdParts : Type 0 where
  pub nominal_frame_interval_ns : ℕ
  pub fov_left : Fov
  pub fov_right : Fov
  pub screen_w_pixels : ℤ
  pub screen_h_pixels : ℤ
  pub left_view : HmdView
  pub right_view : HmdView

abbrev view_at : ℤ → ℤ → ℤ → HmdView
view_at x w h = record {
  w_pixels = w;
  h_pixels = h;
  viewport_x = x;
  viewport_y = pos 0;
  viewport_w = w;
  viewport_h = h;
}

-- `frame_interval` is `time_s_to_ns(1.0f / hz)`.
unfoldable pub hmd_parts : (ℕ → ℕ) → DeviceConfig → HmdParts
hmd_parts frame_interval config =
    let panel_w = config.resolution_native_per_eye_pixels.w in
    let panel_h = config.resolution_native_per_eye_pixels.h in
    record {
      nominal_frame_interval_ns = frame_interval config.refresh_rate_hz;
      fov_left = config.fov_left;
      fov_right = config.fov_right;
      screen_w_pixels = panel_w +ℤ panel_w;
      screen_h_pixels = panel_h;
      left_view = view_at (pos 0) panel_w panel_h;
      right_view = view_at panel_w panel_w panel_h;
    }

-- ===== src/Proto.antt =====
-- proto/generated/electricmaple.pb.h: the messages of the client. A field `has_x` with a field `x` is an
-- option, and floats are their bits.
use electric_maple.Common.{ℕ, Option, none, List, []}
use electric_maple.Common.Int.{ℤ, pos}
use electric_maple.Stream.{ProtoPose, Vec3}

pub record HandJointLocation : Type 0 where
  pub index : ℕ
  pub pose : Option ProtoPose
  pub radius : ℕ

-- Without the fields that no code sets or reads.
pub record TrackingMessage : Type 0 where
  pub head_pose : Option ProtoPose
  pub head_linear_velocity : Option Vec3
  pub head_angular_velocity : Option Vec3
  pub controller_grip_left : Option ProtoPose
  pub controller_aim_left : Option ProtoPose
  pub controller_grip_right : Option ProtoPose
  pub controller_aim_right : Option ProtoPose
  pub hand_joint_locations_left : List HandJointLocation
  pub hand_joint_locations_right : List HandJointLocation
  pub controller_grab_value_left : ℕ
  pub controller_grab_value_right : ℕ

unfoldable pub tracking_init_default : TrackingMessage
tracking_init_default = record {
  head_pose = none;
  head_linear_velocity = none;
  head_angular_velocity = none;
  controller_grip_left = none;
  controller_aim_left = none;
  controller_grip_right = none;
  controller_aim_right = none;
  hand_joint_locations_left = [];
  hand_joint_locations_right = [];
  controller_grab_value_left = 0;
  controller_grab_value_right = 0;
}

pub record UpFrameMessage : Type 0 where
  pub frame_sequence_id : ℤ
  pub decode_complete_time : ℤ
  pub begin_frame_time : ℤ
  pub display_time : ℤ
  pub average_latency : ℤ

pub record UpMessage : Type 0 where
  pub id : ℤ
  pub tracking : Option TrackingMessage
  pub frame : Option UpFrameMessage

unfoldable pub up_message_init_default : UpMessage
up_message_init_default = record { id = pos 0; tracking = none; frame = none }

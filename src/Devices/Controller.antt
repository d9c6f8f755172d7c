-- ===== src/Devices/Controller.antt =====
-- server/src/ems/ems_motion_controller.cpp: the two hand controllers.
use electric_maple.Common.{
  ℕ, Bool, true, false, Option, none, some, List, [], ◌∷◌, map, if◌then◌else◌,
}
use electric_maple.Stream.{Pose, ProtoPose, Quaternion}
use electric_maple.Proto.{TrackingMessage, HandJointLocation}
use electric_maple.Devices.{Event, UpMessageSuper}
use electric_maple.Devices.Hmd.{
  XrtResult, success, input_unsupported, InputName, trigger_value, menu_click, unobstructed_left,
  unobstructed_right, SpaceRelation, orientation_valid, position_valid, orientation_tracked,
  position_tracked, position_or_zero, orientation_or_zero,
}

pub data DeviceType : Type 0 where
  left_hand_controller right_hand_controller other_device : DeviceType

pub data DeviceName : Type 0 where
  simple_controller other_name : DeviceName

-- `struct xrt_input`; the value is the bits of a float.
pub record Input : Type 0 where
  pub name : InputName
  pub active : Bool
  pub timestamp : ℕ
  pub value : ℕ

-- `struct ems_motion_controller`
pub record Controller : Type 0 where
  pub device_type : DeviceType
  pub active : Bool
  pub grip_pose : Pose
  pub aim_pose : Pose
  pub hand_joints : List HandJointLocation
  pub grab_action : ℕ
  pub inputs : List Input

-- The fields of a submessage that is absent are 0.
unfoldable pub convert_pose : ProtoPose → Pose
convert_pose p = record {
  orientation = orientation_or_zero p.orientation;
  position = position_or_zero p.position;
}

abbrev zeroed : ℕ → Input → Input
zeroed now i = record i { active = false; timestamp = now; value = 0 }

abbrev activated : ℕ → Input → Input
activated now i = record i { active = true; timestamp = now }

-- The trigger has the grab's value, and the aim pose is active.
unfoldable pub active_inputs : ℕ → ℕ → List Input → List Input
active_inputs now grab (i0 ∷ i1 ∷ i2 ∷ i3 ∷ rest) =
    record (activated now i0) { value = grab } ∷ i1 ∷ i2 ∷ activated now i3 ∷ rest
active_inputs now grab inputs = inputs

unfoldable pub controller_update_inputs : ℕ → Controller → Controller × XrtResult
controller_update_inputs now emc = (
  record emc {
    inputs =
        if emc.active
        then active_inputs now emc.grab_action emc.inputs
        else map (zeroed now) emc.inputs;
  },
  success,
)

unfoldable pub controller_set_output : Controller → Controller × XrtResult
controller_set_output emc = (emc, success)

pub record JointRelation : Type 0 where
  pub relation : SpaceRelation
  pub radius : ℕ

-- `struct xrt_hand_joint_set`, without `hand_pose`, which is set to the identity.
pub record HandJointSet : Type 0 where
  pub is_active : Bool
  pub joints : List JointRelation

abbrev pose_of : Option ProtoPose → ProtoPose
pose_of none = record { position = none; orientation = none }
pose_of (some p) = p

unfoldable pub joint_relation : HandJointLocation → JointRelation
joint_relation j = record {
  relation = record {
    pose = convert_pose (pose_of j.pose);
    relation_flags =
        orientation_valid ∷ position_valid ∷ orientation_tracked ∷ position_tracked ∷ [];
  };
  radius = j.radius;
}

abbrev joint_set : Controller → HandJointSet
joint_set emc = record { is_active = true; joints = map joint_relation emc.hand_joints }

-- The result, with the joints and the time that was asked for.
unfoldable pub controller_get_hand_tracking :
    InputName → ℕ → Controller → XrtResult × Option (HandJointSet × ℕ)
controller_get_hand_tracking unobstructed_left t emc = (success, some (joint_set emc, t))
controller_get_hand_tracking unobstructed_right t emc = (success, some (joint_set emc, t))
controller_get_hand_tracking _ t emc = (input_unsupported, none)

-- For the grip pose no relation is written.
unfoldable pub controller_get_tracked_pose :
    (Quaternion → Quaternion)
    → InputName
    → Controller
    → Controller × XrtResult × Option SpaceRelation
controller_get_tracked_pose normalize InputName.grip_pose emc = (emc, success, none)
controller_get_tracked_pose normalize InputName.aim_pose emc =
    let aim = record emc.aim_pose { orientation = normalize emc.aim_pose.orientation } in
    (
      record emc { aim_pose = aim },
      success,
      some (record {
        pose = aim;
        relation_flags =
            orientation_valid ∷ position_valid ∷ orientation_tracked ∷ position_tracked ∷ [];
      }),
    )
controller_get_tracked_pose normalize _ emc = (emc, input_unsupported, none)

abbrev pub pose_or : Option ProtoPose → Pose → Pose
pose_or none old = old
pose_or (some p) old = convert_pose p

-- What a message has for one hand.
unfoldable pub receive_hand :
    Option ProtoPose → Option ProtoPose → List HandJointLocation → ℕ → Controller → Controller
receive_hand grip aim joints grab emc = record emc {
  active = true;
  grip_pose = pose_or grip emc.grip_pose;
  aim_pose = pose_or aim emc.aim_pose;
  hand_joints = joints;
  grab_action = grab;
}

unfoldable pub receive_for : DeviceType → TrackingMessage → UpMessageSuper → Controller → Controller
receive_for left_hand_controller t m emc =
    receive_hand t.controller_grip_left t.controller_aim_left m.hand_joint_locations_left
      t.controller_grab_value_left emc
receive_for right_hand_controller t m emc =
    receive_hand t.controller_grip_right t.controller_aim_right m.hand_joint_locations_right
      t.controller_grab_value_right emc
receive_for other_device t m emc = emc

unfoldable pub receive_if : Option TrackingMessage → UpMessageSuper → Controller → Controller
receive_if none m emc = emc
receive_if (some t) m emc = receive_for emc.device_type t m emc

unfoldable pub controller_handle_data : Event → UpMessageSuper → Controller → Controller
controller_handle_data event m emc =
    receive_if m.proto_message.tracking m (record emc { active = false })

abbrev unset_input : InputName → Input
unset_input n = record { name = n; active = false; timestamp = 0; value = 0 }

-- 0.2f, -0.2f, 1.4f and -0.4f
abbrev at_side : ℕ → Pose
at_side x = record {
  orientation = record { x = 0; y = 0; z = 0; w = 1065353216 };
  position = record { x = x; y = 1068708659; z = 3201092813 };
}

abbrev new_controller : DeviceType → InputName → Pose → List HandJointLocation → Controller
new_controller device_type hand_tracker pose joints = record {
  device_type = device_type;
  active = false;
  grip_pose = pose;
  aim_pose = pose;
  hand_joints = joints;
  grab_action = 0;
  inputs =
      unset_input trigger_value
      ∷ unset_input menu_click
      ∷ unset_input InputName.grip_pose
      ∷ unset_input InputName.aim_pose
      ∷ unset_input hand_tracker
      ∷ [];
}

-- The joints are what the new array has, which nothing sets.
unfoldable pub ems_motion_controller_create :
    DeviceName → DeviceType → List HandJointLocation → Option Controller
ems_motion_controller_create other_name device_type joints = none
ems_motion_controller_create simple_controller left_hand_controller joints =
    some (new_controller left_hand_controller unobstructed_left (at_side 3192704205) joints)
ems_motion_controller_create simple_controller right_hand_controller joints =
    some (new_controller right_hand_controller unobstructed_right (at_side 1045220557) joints)
ems_motion_controller_create simple_controller other_device joints = none

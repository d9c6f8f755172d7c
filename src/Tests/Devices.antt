-- ===== src/Tests/Devices.antt =====
-- The theorems of the server's devices at concrete values.
use electric_maple.Common.{ℕ, zero, suc, ◌≡◌, refl, false, none, some, List, [], ◌∷◌, if◌then◌else◌}
use electric_maple.Proto.{UpMessage}
use electric_maple.Experience.{
  EmRemoteExperience, ReportEnv, HeadLocation, JointLocation, joint_locations,
  em_remote_experience_report_pose,
}
use electric_maple.Experience.Life.{calloc_experience}
use electric_maple.Devices.{Event, CallbackFunction, GenericCallbacks, in_mask}
use electric_maple.Devices.Instance.{Devices, Nanopb, decoded_joints}
use electric_maple.Devices.Hmd.{ems_hmd_create}
use electric_maple.Devices.Controller.{left_hand_controller, right_hand_controller}
use electric_maple.Devices.Delivery.{IsDelivered, handle_newest, pose-IsDelivered}
use electric_maple.Devices.Joints.{joints_stored}
use electric_maple.Tests.Rendering.{client, pose_at, no_report, input}

-- The callbacks as a list, the newest first.
abbrev invoke_list :
    {S : Type 0}
    → Event
    → (Event → CallbackFunction S → S → S)
    → List (CallbackFunction S × ℕ)
    → S
    → S
invoke_list e invoker [] s = s
invoke_list e invoker ((f, mask) ∷ fs) s =
    let t = invoke_list e invoker fs s in if in_mask e mask then invoker e f t else t

abbrev callback_list : GenericCallbacks Devices
callback_list = record {
  Collection = List (CallbackFunction Devices × ℕ);
  empty = [];
  add_callback = λ f mask c. (f, mask) ∷ c;
  invoke_callbacks = invoke_list;
  invoke-empty = λ e invoker s. refl;
  invoke-add = λ e invoker f mask c s. refl;
}

-- Messages that are not encoded.
abbrev plain : Nanopb
plain = record {
  Bytes = UpMessage;
  encode = λ m. m;
  decode = λ m. some m;
  int_of_float = λ n. n;
  decode-encode = λ m. refl;
}

abbrev head_location : HeadLocation
head_location = record { pose = pose_at 7; linear_velocity = none; angular_velocity = none }

abbrev report : ReportEnv
report = record no_report {
  head = some head_location;
  left_aim = some (pose_at 8);
  right_aim = some (pose_at 9);
}

abbrev experience : EmRemoteExperience
experience = calloc_experience client 100 90

abbrev no_devices : Devices
no_devices = record {
  head = ems_hmd_create;
  left = record {
    device_type = left_hand_controller;
    active = false;
    grip_pose = pose_at 0;
    aim_pose = pose_at 0;
    hand_joints = [];
    grab_action = 0;
    inputs = [];
  };
  right = record {
    device_type = right_hand_controller;
    active = false;
    grip_pose = pose_at 0;
    aim_pose = pose_at 0;
    hand_joints = [];
    grab_action = 0;
    inputs = [];
  };
}

pose-IsDelivered_example :
    (d' : Devices) × (handle_newest plain callback_list
        (em_remote_experience_report_pose report input experience).calls
        no_devices
      ≡ some d')
    × IsDelivered (λ q. q) head_location (pose_at 8) (pose_at 9) input no_devices d'
pose-IsDelivered_example =
    pose-IsDelivered plain callback_list (λ q. q) report input head_location (pose_at 8) (pose_at 9)
      experience no_devices refl refl refl (λ hand. tt) (λ n h. refl) (refl, refl)

-- `n` joints.
abbrev joints_at : ℕ → List JointLocation
joints_at zero = []
joints_at (suc n) = record { pose = pose_at n; radius = n } ∷ joints_at n

joints_stored_example :
    decoded_joints (λ n. n) (joint_locations (λ n. n) 0 (joints_at 26))
    ≡ some (joint_locations (λ n. n) 0 (joints_at 26))
joints_stored_example = joints_stored (λ n. n) (λ n. n) (joints_at 26) (λ n h. refl) refl

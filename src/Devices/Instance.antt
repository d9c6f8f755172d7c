-- ===== src/Devices/Instance.antt =====
-- server/src/ems/ems_instance.cpp: the server's devices, and ems_gstreamer_pipeline.c: how a message of the
-- client reaches them.
use electric_maple.Common.{ℕ, suc, zero, ◌≡◌, Bool, true, false, Option, none, some, List, [], ◌∷◌}
use electric_maple.Proto.{HandJointLocation, TrackingMessage, UpMessage}
use electric_maple.Devices.{
  tracking, controller, UpMessageSuper, CallbackFunction, GenericCallbacks, event_bit,
  ems_callbacks_create, ems_callbacks_add, ems_callbacks_reset, ems_callbacks_call,
}
use electric_maple.Devices.Hmd.{Hmd, ems_hmd_create, ems_hmd_handle_data}
use electric_maple.Devices.Controller.{
  Controller, simple_controller, left_hand_controller, right_hand_controller,
  ems_motion_controller_create, controller_handle_data,
}

-- The devices that the callbacks get as their user data.
pub record Devices : Type 0 where
  pub head : Hmd
  pub left : Controller
  pub right : Controller

abbrev pub head_callback : CallbackFunction Devices
head_callback e m d = record d { head = ems_hmd_handle_data e m d.head }

abbrev pub left_callback : CallbackFunction Devices
left_callback e m d = record d { left = controller_handle_data e m d.left }

abbrev pub right_callback : CallbackFunction Devices
right_callback e m d = record d { right = controller_handle_data e m d.right }

-- nanopb: its encoding of a message is decoded to the message. The float of a joint's index is cast to an int.
pub record Nanopb : Type 1 where
  pub Bytes : Type 0
  pub encode : UpMessage → Bytes
  pub decode : Bytes → Option UpMessage
  pub int_of_float : ℕ → ℕ
  pub decode-encode : (m : UpMessage) → decode (encode m) ≡ some m

abbrev pub cons_if {ℓ} : {A : Type ℓ} → A → Option (List A) → Option (List A)
cons_if y none = none
cons_if y (some ys) = some (y ∷ ys)

-- Writes an array at an index; `none` is a write beyond its end.
abbrev pub set_at {ℓ} : {A : Type ℓ} → ℕ → A → List A → Option (List A)
set_at n a [] = none
set_at zero a (x ∷ xs) = some (a ∷ xs)
set_at (suc n) a (x ∷ xs) = cons_if x (set_at n a xs)

abbrev pub Joints : Type 0
Joints = List HandJointLocation

-- Each joint of a message is stored at its index.
unfoldable pub store_joint : (ℕ → ℕ) → HandJointLocation → Option Joints → Option Joints
store_joint int_of_float j none = none
store_joint int_of_float j (some dest) = set_at (int_of_float j.index) j dest

unfoldable pub store_joints : (ℕ → ℕ) → Joints → Option Joints → Option Joints
store_joints int_of_float [] dest = dest
store_joints int_of_float (j ∷ js) dest =
    store_joints int_of_float js (store_joint int_of_float j dest)

abbrev pub zero_joint : HandJointLocation
zero_joint = record { index = 0; pose = none; radius = 0 }

abbrev pub zero_joints : ℕ → Joints
zero_joints zero = []
zero_joints (suc n) = zero_joint ∷ zero_joints n

-- The arrays of a message, which are zeroed first.
abbrev pub decoded_joints : (ℕ → ℕ) → Joints → Option Joints
decoded_joints int_of_float js = store_joints int_of_float js (some (zero_joints 26))

abbrev pub super : UpMessage → Option Joints → Option Joints → Option UpMessageSuper
super m none right = none
super m (some left) none = none
super m (some left) (some right) = some (record {
  proto_message = m;
  hand_joint_locations_left = left;
  hand_joint_locations_right = right;
})

module _ (g : GenericCallbacks Devices) where
  -- `ems_instance_system_devices_init`: the callbacks in the order of the devices.
  unfoldable pub register_devices : g.Collection
  register_devices = ems_callbacks_add g (event_bit controller) right_callback (
      ems_callbacks_add g (event_bit controller) left_callback
        (ems_callbacks_add g (event_bit tracking) head_callback (ems_callbacks_create g)))

module _ (np : Nanopb) (g : GenericCallbacks Devices) where
  unfoldable pub super_of : UpMessage → Option TrackingMessage → Option UpMessageSuper
  super_of m none = super m (some (zero_joints 26)) (some (zero_joints 26))
  super_of m (some t) =
      super m (decoded_joints np.int_of_float t.hand_joint_locations_left)
        (decoded_joints np.int_of_float t.hand_joint_locations_right)

  unfoldable pub call_for :
      g.Collection → Option TrackingMessage → UpMessageSuper → Devices → Devices
  call_for callbacks none m d = d
  call_for callbacks (some t) m d =
      ems_callbacks_call g callbacks controller m (ems_callbacks_call g callbacks tracking m d)

  -- `none` is a write beyond the arrays of the joints.
  unfoldable pub deliver : g.Collection → Option UpMessageSuper → Devices → Option Devices
  deliver callbacks none d = none
  deliver callbacks (some m) d = some (call_for callbacks m.proto_message.tracking m d)

  unfoldable pub decode_and_deliver : g.Collection → Option UpMessage → Devices → Option Devices
  decode_and_deliver callbacks none d = some d
  decode_and_deliver callbacks (some m) d = deliver callbacks (super_of m m.tracking) d

  -- What `handle_up_message` does with the devices.
  unfoldable pub handle_tracking : g.Collection → np.Bytes → Devices → Option Devices
  handle_tracking callbacks bytes d = decode_and_deliver callbacks (np.decode bytes) d

abbrev pub devices_of : Option Controller → Option Controller → Option Devices
devices_of none right = none
devices_of (some left) none = none
devices_of (some left) (some right) =
    some (record { head = ems_hmd_create; left = left; right = right })

-- `none` is a null dereference. The arguments are the memory of the new arrays of joints.
unfoldable pub ems_instance_system_devices_init : Joints → Joints → Option Devices
ems_instance_system_devices_init left right =
    devices_of (ems_motion_controller_create simple_controller left_hand_controller left)
      (ems_motion_controller_create simple_controller right_hand_controller right)

-- The indexes of the devices for the hands.
unfoldable pub ems_instance_system_devices_get_roles : ℕ × ℕ
ems_instance_system_devices_get_roles = (1, 2)

-- Whether a compositor is wanted, and the result and the compositor of its creation: the result of the
-- whole and the compositor that is returned.
unfoldable pub ems_instance_create_system : Bool → Bool × Option ℕ → Bool × Option ℕ
ems_instance_create_system false (xret, xsysc) = (true, none)
ems_instance_create_system true (xret, xsysc) = (true, xsysc)

-- The devices' callbacks are dropped before the devices are destroyed.
unfoldable pub ems_instance_system_devices_destroy :
    (g : GenericCallbacks Devices) → g.Collection → g.Collection
ems_instance_system_devices_destroy g callbacks = ems_callbacks_reset g callbacks

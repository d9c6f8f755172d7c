-- ===== src/Devices.antt =====
-- server/src/ems/ems_callbacks.cpp: the callbacks for the client's messages, over Monado's collection.
pub mod Hmd
pub mod Controller
pub mod Instance
pub mod Storable
pub mod Received
pub mod Delivery
pub mod Joints
pub mod Shutdown
pub mod Racing
use electric_maple.Common.{ℕ, ◌/◌, ◌%◌, ◌≡◌, Bool, List, ◌==◌, if◌then◌else◌}
use electric_maple.Proto.{UpMessage, HandJointLocation}

-- `em_UpMessageSuper`: the message, and the joints of both hands, which the decoder stores in arrays.
pub record UpMessageSuper : Type 0 where
  pub proto_message : UpMessage
  pub hand_joint_locations_left : List HandJointLocation
  pub hand_joint_locations_right : List HandJointLocation

pub data Event : Type 0 where
  tracking controller : Event

unfoldable pub event_bit : Event → ℕ
event_bit tracking = 1
event_bit controller = 2

-- Whether a mask has the event's bit.
abbrev pub in_mask : Event → ℕ → Bool
in_mask e mask = (mask / event_bit e) % 2 == 1

-- A callback with its user data changes the state `S` of the devices.
abbrev pub CallbackFunction : Type 0 → Type 0
CallbackFunction S = Event → UpMessageSuper → S → S

-- Monado's `GenericCallbacks`: `invokeCallbacks` hands the invoker each callback whose mask has the event,
-- in the order in which they were added; an invoker that returns false removes none.
pub record GenericCallbacks (S : Type 0) : Type 1 where
  pub Collection : Type 0
  pub empty : Collection
  pub add_callback : CallbackFunction S → ℕ → Collection → Collection
  pub invoke_callbacks : Event → (Event → CallbackFunction S → S → S) → Collection → S → S
  pub invoke-empty :
      (e : Event) (invoker : Event → CallbackFunction S → S → S) (s : S)
      → invoke_callbacks e invoker empty s ≡ s
  pub invoke-add :
      (e : Event) (invoker : Event → CallbackFunction S → S → S) (f : CallbackFunction S) (mask : ℕ)
      (c : Collection) (s : S)
      → invoke_callbacks e invoker (add_callback f mask c) s
        ≡ (let t = invoke_callbacks e invoker c s in if in_mask e mask then invoker e f t else t)

module _ {S : Type 0} (g : GenericCallbacks S) where
  unfoldable pub ems_callbacks_create : g.Collection
  ems_callbacks_create = g.empty

  unfoldable pub ems_callbacks_add : ℕ → CallbackFunction S → g.Collection → g.Collection
  ems_callbacks_add mask f callbacks = g.add_callback f mask callbacks

  unfoldable pub ems_callbacks_reset : g.Collection → g.Collection
  ems_callbacks_reset callbacks = g.empty

  -- The invoker calls the callback.
  unfoldable pub ems_callbacks_call : g.Collection → Event → UpMessageSuper → S → S
  ems_callbacks_call callbacks e message s =
      g.invoke_callbacks e (λ ev callback. callback ev message) callbacks s

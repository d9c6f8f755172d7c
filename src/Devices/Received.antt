-- ===== src/Devices/Received.antt =====
-- server/src/ems/ems_instance.cpp: which device gets which event, and what a message leads to.
use electric_maple.Common.{
  ◌≡◌, refl, ap, sym, subst, ◌∙◌, Bool, true, false, Option, none, some, List, if-elim,
}
use electric_maple.Proto.{TrackingMessage, UpMessage}
use electric_maple.Experience.{
  InputState, ReportEnv, JointLocation, hand_tracking, locate_hand, located_hand,
}
use electric_maple.Devices.{
  tracking, controller, UpMessageSuper, GenericCallbacks, event_bit, ems_callbacks_create,
  ems_callbacks_add, ems_callbacks_call,
}
use electric_maple.Devices.Instance.{
  Devices, head_callback, left_callback, right_callback, Nanopb, super, super_of, call_for, deliver,
  decode_and_deliver, handle_tracking, register_devices, Joints,
}

-- The registered callbacks: a tracking event goes to the head, a controller event to both hands.
module _ (g : GenericCallbacks Devices) where
  call_tracking_lem :
      (m : UpMessageSuper) (d : Devices)
      → ems_callbacks_call g (register_devices g) tracking m d ≡ head_callback tracking m d
  unfolding ems_callbacks_call register_devices ems_callbacks_add ems_callbacks_create event_bit
  call_tracking_lem m d =
      g.invoke-add tracking _ right_callback 2 _ d
      ∙ g.invoke-add tracking _ left_callback 2 _ d
      ∙ g.invoke-add tracking _ head_callback 1 _ d
      ∙ ap (head_callback tracking m) (g.invoke-empty tracking _ d)

  call_controller_lem :
      (m : UpMessageSuper) (d : Devices)
      → ems_callbacks_call g (register_devices g) controller m d
        ≡ right_callback controller m (left_callback controller m d)
  unfolding ems_callbacks_call register_devices ems_callbacks_add ems_callbacks_create event_bit
  call_controller_lem m d =
      g.invoke-add controller _ right_callback 2 _ d
      ∙ ap (right_callback controller m) (
          g.invoke-add controller _ left_callback 2 _ d
          ∙ ap (left_callback controller m)
              (g.invoke-add controller _ head_callback 1 _ d ∙ g.invoke-empty controller _ d))

-- The devices after a message with tracking, whose joints fit the arrays.
abbrev pub after : UpMessageSuper → Devices → Devices
after m d = right_callback controller m (left_callback controller m (head_callback tracking m d))

some_injective : {A : Type 0} (a b : A) → some a ≡ some b → a ≡ b
some_injective a b e = cc

module _ (np : Nanopb) (g : GenericCallbacks Devices) where
  deliver_lem :
      (m : UpMessage) (t : TrackingMessage) (left right : Option Joints) (d d' : Devices)
      → m.tracking ≡ some t
      → deliver np g (register_devices g) (super m left right) d ≡ some d'
      → (s : UpMessageSuper) × (s.proto_message ≡ m) × (d' ≡ after s d)
  unfolding deliver call_for
  deliver_lem m t none right d d' e h = cc
  deliver_lem m t (some left) none d d' e h = cc
  deliver_lem m t (some left) (some right) d d' e h = (
    s,
    refl,
    sym (some_injective _ _ (ap (λ o. some (call_for np g (register_devices g) o s d)) (sym e) ∙ h))
        ∙ call_controller_lem g s _
        ∙ ap (λ v. right_callback controller s (left_callback controller s v))
            (call_tracking_lem g s d),
  )
    where
      s : UpMessageSuper
      s = record {
        proto_message = m;
        hand_joint_locations_left = left;
        hand_joint_locations_right = right;
      }

  pub handle_lem :
      (m : UpMessage) (t : TrackingMessage) (d d' : Devices)
      → m.tracking ≡ some t
      → handle_tracking np g (register_devices g) (np.encode m) d ≡ some d'
      → (s : UpMessageSuper) × (s.proto_message ≡ m) × (d' ≡ after s d)
  unfolding handle_tracking decode_and_deliver super_of
  handle_lem m t d d' e h = deliver_lem m t _ _ d d' e (
      subst (λ o. deliver np g (register_devices g) (super_of np g m o) d ≡ some d') e
        (subst (λ o. decode_and_deliver np g (register_devices g) o d ≡ some d')
          (np.decode-encode m) h))

-- The hand trackers change nothing but the joints.
abbrev pub IsAside : TrackingMessage → TrackingMessage → Type 0
IsAside t u =
    (u.head_pose ≡ t.head_pose)
    × (u.controller_aim_left ≡ t.controller_aim_left)
    × (u.controller_aim_right ≡ t.controller_aim_right)
    × (u.controller_grab_value_left ≡ t.controller_grab_value_left)
    × (u.controller_grab_value_right ≡ t.controller_grab_value_right)

located-IsAside :
    (e : ReportEnv) (b : Bool) (o : Option (Bool × List JointLocation)) (t u : TrackingMessage)
    → IsAside t u
    → IsAside t (located_hand e b o u)
unfolding located_hand
located-IsAside e b none t u h = h
located-IsAside e b (some (false, js)) t u h = h
located-IsAside e b (some (true, js)) t u h = if-elim (IsAside t) b h h

pub hand_tracking-IsAside :
    (e : ReportEnv) (i : InputState) (t : TrackingMessage) → IsAside t (hand_tracking e i t)
unfolding hand_tracking locate_hand
hand_tracking-IsAside e i t =
    if-elim (IsAside t) _
      (located-IsAside e _ _ t _ (located-IsAside e _ _ t t (refl, refl, refl, refl, refl)))
      (refl, refl, refl, refl, refl)

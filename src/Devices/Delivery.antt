-- ===== src/Devices/Delivery.antt =====
-- client/src/em/em_remote_experience.cpp and the server's devices: a pose that the client reports is the one
-- that the devices give.
use electric_maple.Devices.Storable.{
  AreStorable, IsFull, hand_tracking-AreStorable, aim-AreStorable,
}
use electric_maple.Devices.Received.{after, handle_lem, IsAside, hand_tracking-IsAside}
use electric_maple.Common.{
  ℕ, ◌≡◌, refl, ap, sym, subst, ◌∙◌, Bool, true, false, Option, some, List, [], ◌∷◌, if◌then◌else◌,
  ◌<◌,
}
use electric_maple.Common.Int.{i64}
use electric_maple.Stream.{Pose, Quaternion}
use electric_maple.Proto.{TrackingMessage, UpMessage, up_message_init_default}
use electric_maple.Experience.{
  InputState, ReportEnv, HeadLocation, head_tracking, aim_tracking, hand_tracking, active_pose,
  tracking_of, XrCall, send_bytes, EmRemoteExperience, em_remote_experience_report_pose,
  send_tracking, em_remote_experience_emit_upmessage,
}
use electric_maple.Experience.{convert_pose as convert_to_proto}
use electric_maple.Devices.{tracking, controller, UpMessageSuper, GenericCallbacks}
use electric_maple.Devices.Hmd.{
  Hmd, ems_hmd_handle_data, receive_tracking, receive_pose, update_pose, ems_hmd_get_tracked_pose,
  generic_head_pose, normalized, success, position_or_zero, orientation_or_zero, to_xrt_vec3,
  orientation_valid, position_valid, orientation_tracked,
}
use electric_maple.Devices.Controller.{
  Controller, controller_handle_data, receive_if, receive_for, receive_hand, convert_pose, pose_or,
  left_hand_controller, right_hand_controller,
}
use electric_maple.Devices.Instance.{
  decoded_joints, super, super_of, deliver, decode_and_deliver, Devices, Nanopb, handle_tracking,
  register_devices,
}

-- The left controller is the left one, and the right one the right one.
abbrev pub IsWired : Devices → Type 0
IsWired d =
    (d.left.device_type ≡ left_hand_controller) × (d.right.device_type ≡ right_hand_controller)

-- What the server does with the newest call if it is a send.
unfoldable pub handle_newest :
    Nanopb → GenericCallbacks Devices → List XrCall → Devices → Option Devices
handle_newest np g (send_bytes m ∷ calls) d =
    handle_tracking np g (register_devices g) (np.encode m) d
handle_newest np g _ d = some d

abbrev pub pose_if : Bool → Pose → Pose → Pose
pose_if b p old = if b then p else old

-- What the devices have after the client has reported this.
abbrev pub IsDelivered :
    (Quaternion → Quaternion) → HeadLocation → Pose → Pose → InputState → Devices → Devices → Type 0
IsDelivered normalize h l r i d d' =
    ((ems_hmd_get_tracked_pose normalize generic_head_pose d'.head).1 ≡ success)
    × ((ems_hmd_get_tracked_pose normalize generic_head_pose d'.head).2
        ≡ some (record {
          pose = normalized normalize h.pose;
          relation_flags = orientation_valid ∷ position_valid ∷ orientation_tracked ∷ [];
        }))
    × (d'.left.active ≡ true)
    × (d'.left.aim_pose ≡ pose_if i.left_active l d.left.aim_pose)
    × (d'.left.grab_action ≡ i.left_grab)
    × (d'.right.active ≡ true)
    × (d'.right.aim_pose ≡ pose_if i.right_active r d.right.aim_pose)
    × (d'.right.grab_action ≡ i.right_grab)

-- A received head pose is the one that the next query gives.
abbrev IsHead : (Quaternion → Quaternion) → Pose → Hmd → Type 0
IsHead normalize p eh =
    ((ems_hmd_get_tracked_pose normalize generic_head_pose eh).1 ≡ success)
    × ((ems_hmd_get_tracked_pose normalize generic_head_pose eh).2
        ≡ some (record {
          pose = normalized normalize p;
          relation_flags = orientation_valid ∷ position_valid ∷ orientation_tracked ∷ [];
        }))

received-IsHead :
    (normalize : Quaternion → Quaternion) (p : Pose) (t : TrackingMessage) (s : UpMessageSuper)
    (eh : Hmd)
    → s.proto_message.tracking ≡ some t
    → t.head_pose ≡ some (convert_to_proto p)
    → IsHead normalize p (ems_hmd_handle_data tracking s eh)
unfolding ems_hmd_handle_data receive_tracking receive_pose convert_to_proto
    ems_hmd_get_tracked_pose update_pose to_xrt_vec3 position_or_zero orientation_or_zero
received-IsHead normalize p t s eh e h =
    subst (λ o. IsHead normalize p (receive_tracking o eh)) (sym e)
      (subst (λ o. IsHead normalize p (receive_pose o eh)) (sym h) (refl, refl))

-- A hand that a message was for.
abbrev IsHand : Bool → Pose → ℕ → Controller → Controller → Type 0
IsHand b p grab c c' =
    (c'.active ≡ true) × (c'.aim_pose ≡ pose_if b p c.aim_pose) × (c'.grab_action ≡ grab)

aim_lem : (b : Bool) (p old : Pose) → pose_or (active_pose b p) old ≡ pose_if b p old
unfolding convert_to_proto convert_pose position_or_zero orientation_or_zero
aim_lem true p old = refl
aim_lem false p old = refl

received-left-IsHand :
    (b : Bool) (p : Pose) (grab : ℕ) (t : TrackingMessage) (s : UpMessageSuper) (c : Controller)
    → c.device_type ≡ left_hand_controller
    → s.proto_message.tracking ≡ some t
    → t.controller_aim_left ≡ active_pose b p
    → t.controller_grab_value_left ≡ grab
    → IsHand b p grab c (controller_handle_data controller s c)
unfolding controller_handle_data receive_if receive_for receive_hand
received-left-IsHand b p grab t s c w e a v =
    subst (λ o. IsHand b p grab c (receive_if o s (record c { active = false }))) (sym e)
      (subst (λ y. IsHand b p grab c (receive_for y t s (record c { active = false }))) (sym w)
        (refl, ap (λ o. pose_or o c.aim_pose) a ∙ aim_lem b p c.aim_pose, v))

received-right-IsHand :
    (b : Bool) (p : Pose) (grab : ℕ) (t : TrackingMessage) (s : UpMessageSuper) (c : Controller)
    → c.device_type ≡ right_hand_controller
    → s.proto_message.tracking ≡ some t
    → t.controller_aim_right ≡ active_pose b p
    → t.controller_grab_value_right ≡ grab
    → IsHand b p grab c (controller_handle_data controller s c)
unfolding controller_handle_data receive_if receive_for receive_hand
received-right-IsHand b p grab t s c w e a v =
    subst (λ o. IsHand b p grab c (receive_if o s (record c { active = false }))) (sym e)
      (subst (λ y. IsHand b p grab c (receive_for y t s (record c { active = false }))) (sym w)
        (refl, ap (λ o. pose_or o c.aim_pose) a ∙ aim_lem b p c.aim_pose, v))

after-IsDelivered :
    (normalize : Quaternion → Quaternion) (h : HeadLocation) (l r : Pose) (i : InputState)
    (t : TrackingMessage) (s : UpMessageSuper) (d : Devices)
    → IsWired d
    → s.proto_message.tracking ≡ some t
    → IsAside (aim_tracking i l r (head_tracking h)) t
    → IsDelivered normalize h l r i d (after s d)
unfolding aim_tracking head_tracking
after-IsDelivered normalize h l r i t s d (wl, wr) e (p, al, ar, gl, gr) =
    let (a, b) = received-IsHead normalize h.pose t s d.head e p in
    let (c, k, v) = received-left-IsHand i.left_active l i.left_grab t s d.left wl e al gl in
    let (c2, k2, v2) = received-right-IsHand i.right_active r i.right_grab t s d.right wr e ar gr in
    (a, b, c, k, v, c2, k2, v2)

sent-IsDelivered :
    (np : Nanopb) (g : GenericCallbacks Devices) (normalize : Quaternion → Quaternion)
    (h : HeadLocation) (l r : Pose) (i : InputState) (t : TrackingMessage) (x : EmRemoteExperience)
    (d d' : Devices)
    → IsWired d
    → IsAside (aim_tracking i l r (head_tracking h)) t
    → handle_newest np g (send_tracking (some t) x).calls d ≡ some d'
    → IsDelivered normalize h l r i d d'
unfolding handle_newest send_tracking em_remote_experience_emit_upmessage up_message_init_default
sent-IsDelivered np g normalize h l r i t x d d' w a k =
    let (s, p, q) = handle_lem np g _ t d d' refl k in
    subst (IsDelivered normalize h l r i d) (sym q)
      (after-IsDelivered normalize h l r i t s d w (ap (λ (m : UpMessage). m.tracking) p) a)

sent_returns :
    (np : Nanopb) (g : GenericCallbacks Devices) (t : TrackingMessage) (x : EmRemoteExperience)
    (d : Devices)
    → AreStorable np.int_of_float t
    → (d' : Devices) × (handle_newest np g (send_tracking (some t) x).calls d ≡ some d')
unfolding handle_newest send_tracking em_remote_experience_emit_upmessage up_message_init_default
    handle_tracking decode_and_deliver super_of deliver
sent_returns np g t x d ((l, p), (r, q)) =
    let c = register_devices g in
    let m : UpMessage = record up_message_init_default {
      tracking = some t;
      id = i64 x.next_up_message;
    } in
    (
      _,
      ap (λ o. decode_and_deliver np g c o d) (np.decode-encode m)
          ∙ ap
              (λ o.
                deliver np g c
                  (super m o (decoded_joints np.int_of_float t.hand_joint_locations_right)) d)
              p
          ∙ ap (λ o. deliver np g c (super m (some l) o) d) q,
    )

-- When the client can locate the head and both hands, each hand tracker gives 26 joints or none, and the
-- server's cast undoes the client's conversion of a joint's index to a float, the server handles the message
-- of the report, and after it the next query of the display gives the head's pose with its orientation
-- normalized, both controllers are active with the grab of their own hand, and each has the aim of its own
-- hand if that hand is active, and the aim from before otherwise.
pub pose-IsDelivered :
    (np : Nanopb) (g : GenericCallbacks Devices) (normalize : Quaternion → Quaternion)
    (e : ReportEnv) (i : InputState) (h : HeadLocation) (l r : Pose) (x : EmRemoteExperience)
    (d : Devices)
    → e.head ≡ some h
    → e.left_aim ≡ some l
    → e.right_aim ≡ some r
    → ((hand : ℕ) → IsFull (e.joints hand))
    → ((n : ℕ) → n < 26 → np.int_of_float (e.float_of n) ≡ n)
    → IsWired d
    → (d' : Devices) × (handle_newest np g (em_remote_experience_report_pose e i x).calls d
        ≡ some d')
      × IsDelivered normalize h l r i d d'
unfolding em_remote_experience_report_pose tracking_of
pose-IsDelivered np g normalize e i h l r x d eh el er f exact w =
    let t = hand_tracking e i (aim_tracking i l r (head_tracking h)) in
    let (d', k) = sent_returns np g t x d (
      hand_tracking-AreStorable e np.int_of_float exact i _ f
        (aim-AreStorable np.int_of_float i h l r)) in
    (
      d',
      subst (λ o. handle_newest np g (send_tracking o x).calls d ≡ some d')
          (sym (
            ap (λ o. tracking_of e i o e.left_aim e.right_aim) eh
            ∙ ap (λ o. tracking_of e i (some h) o e.right_aim) el
            ∙ ap (λ o. tracking_of e i (some h) (some l) o) er))
          k,
      sent-IsDelivered np g normalize h l r i t x d d' w (hand_tracking-IsAside e i _) k,
    )

-- ===== src/Devices/Storable.antt =====
-- client/src/em/em_remote_experience.cpp and ems_gstreamer_pipeline.c: the joints of a report fit the
-- server's arrays.
use electric_maple.Common.{
  ℕ, ◌≡◌, refl, Bool, true, false, Option, none, some, List, if-elim, length, ◌<◌, ◌&&◌, not, ◌==◌,
}
use electric_maple.Stream.{Pose}
use electric_maple.Proto.{tracking_init_default, TrackingMessage}
use electric_maple.Experience.{
  InputState, ReportEnv, HeadLocation, JointLocation, joint_locations, head_tracking, aim_tracking,
  hand_tracking, locate_hand, located_hand,
}
use electric_maple.Devices.Joints.{joints_stored}
use electric_maple.Devices.Instance.{decoded_joints, store_joints, zero_joints, Joints}

-- Joints that the server can store.
abbrev pub IsStorable : (ℕ → ℕ) → Joints → Type 0
IsStorable int_of js = (dest : Joints) × (decoded_joints int_of js ≡ some dest)

abbrev pub AreStorable : (ℕ → ℕ) → TrackingMessage → Type 0
AreStorable int_of t =
    IsStorable int_of t.hand_joint_locations_left × IsStorable int_of t.hand_joint_locations_right

-- A hand tracker that is active gives 26 joints.
abbrev pub IsFull : Option (Bool × List JointLocation) → Type 0
IsFull none = Unit
IsFull (some (active, js)) = length js ≡ 26

module _ (e : ReportEnv) (int_of : ℕ → ℕ)
    (exact : (n : ℕ) → n < 26 → int_of (e.float_of n) ≡ n) where
  located-AreStorable :
      (b : Bool) (o : Option (Bool × List JointLocation)) (t : TrackingMessage)
      → IsFull o
      → AreStorable int_of t
      → AreStorable int_of (located_hand e b o t)
  unfolding located_hand
  located-AreStorable b none t f h = h
  located-AreStorable b (some (false, js)) t f h = h
  located-AreStorable b (some (true, js)) t f (l, r) =
      let s : IsStorable int_of (joint_locations e.float_of 0 js) =
        (_, joints_stored e.float_of int_of js exact f) in
      if-elim (AreStorable int_of) b
        {x = record t { hand_joint_locations_left = joint_locations e.float_of 0 js }}
        {y = record t { hand_joint_locations_right = joint_locations e.float_of 0 js }} (s, r)
        (l, s)

  locate_hand-AreStorable :
      (i : InputState) (hand : ℕ) (t : TrackingMessage)
      → IsFull (e.joints hand)
      → AreStorable int_of t
      → AreStorable int_of (locate_hand e i hand t)
  unfolding locate_hand
  locate_hand-AreStorable i hand t f h =
      located-AreStorable (hand == i.hand_tracker_left) (e.joints hand) t f h

  pub hand_tracking-AreStorable :
      (i : InputState) (t : TrackingMessage)
      → ((hand : ℕ) → IsFull (e.joints hand))
      → AreStorable int_of t
      → AreStorable int_of (hand_tracking e i t)
  unfolding hand_tracking
  hand_tracking-AreStorable i t f h =
      let first = locate_hand e i i.hand_tracker_left t in
      if-elim (AreStorable int_of)
        (i.pfn_locate_hand_joints
          && not (i.hand_tracker_left == 0)
          && not (i.hand_tracker_right == 0))
        (locate_hand-AreStorable i i.hand_tracker_right first (f i.hand_tracker_right)
          (locate_hand-AreStorable i i.hand_tracker_left t (f i.hand_tracker_left) h))
        h

pub aim-AreStorable :
    (int_of : ℕ → ℕ) (i : InputState) (h : HeadLocation) (l r : Pose)
    → AreStorable int_of (aim_tracking i l r (head_tracking h))
unfolding aim_tracking head_tracking tracking_init_default store_joints
aim-AreStorable int_of i h l r = ((zero_joints 26, refl), (zero_joints 26, refl))

-- ===== src/Devices/Racing.antt =====
-- server/src/ems/ems_hmd.cpp: a query of the display while messages arrive, in the build without USE_PREDICTION.
use electric_maple.Common.{
  ◌≡◌, refl, ap, sym, subst, Bool, true, false, Option, none, some, List, [], ◌∷◌, if◌then◌else◌,
}
use electric_maple.Stream.{ProtoPose, Quaternion}
use electric_maple.Proto.{TrackingMessage}
use electric_maple.Devices.{Event, UpMessageSuper}
use electric_maple.Devices.Hmd.{
  Hmd, SpaceRelation, generic_head_pose, success, receive_pose, receive_tracking,
  ems_hmd_handle_data, take_received, update_pose, tracked_relation, ems_hmd_get_tracked_pose,
}

-- Where the thread that queries is: outside of the query, past the test of `updated`, which it makes without
-- the lock, or before it writes the result.
pub data Phase : Type 0 where
  outside tested leaving : Phase

-- The display, the messages that it received and the results of the queries, the latest one first.
pub record Race : Type 0 where
  pub hmd : Hmd
  pub phase : Phase
  pub received : List UpMessageSuper
  pub returned : List SpaceRelation

abbrev pub after_test : Bool → Phase
after_test true = tested
after_test false = leaving

abbrev pub quiet : Hmd → Race
quiet h = record { hmd = h; phase = outside; received = []; returned = [] }

module _ (normalize : Quaternion → Quaternion) where
  -- One thread receives, which stores under the lock, and one queries.
  pub data RaceStep : Race → Race → Type 0 where
    stores :
        (event : Event) (m : UpMessageSuper) (r : Race)
        → RaceStep r
            (record r { hmd = ems_hmd_handle_data event m r.hmd; received = m ∷ r.received })
    tests :
        (r : Race) → r.phase ≡ outside → RaceStep r (record r { phase = after_test r.hmd.updated })
    takes :
        (r : Race)
        → r.phase ≡ tested
        → RaceStep r (record r { hmd = take_received normalize r.hmd; phase = leaving })
    writes :
        (r : Race)
        → r.phase ≡ leaving
        → RaceStep r (record r { phase = outside; returned = tracked_relation r.hmd ∷ r.returned })

  pub data Races (r : Race) : Race → Type 0 where
    here : Races r r
    next : {q s : Race} → Races r q → RaceStep q s → Races r s

  -- The display after whole messages and whole queries, one after the other, with their lists.
  pub data Sequential (h : Hmd) : Hmd → List UpMessageSuper → List SpaceRelation → Type 0 where
    starts : Sequential h h [] []
    handles :
        {g : Hmd} {ms : List UpMessageSuper} {rs : List SpaceRelation} (event : Event)
        (m : UpMessageSuper)
        → Sequential h g ms rs
        → Sequential h (ems_hmd_handle_data event m g) (m ∷ ms) rs
    queries :
        {g k : Hmd} {ms : List UpMessageSuper} {rs : List SpaceRelation} (r : SpaceRelation)
        → ems_hmd_get_tracked_pose normalize generic_head_pose g ≡ (k, success, some r)
        → Sequential h g ms rs
        → Sequential h k ms (r ∷ rs)

  -- In each phase: a query past the test has not happened yet and will find the pose, a query before its
  -- result has happened.
  abbrev Linear : Hmd → Race → Phase → Type 0
  Linear h r outside = Sequential h r.hmd r.received r.returned
  Linear h r tested = Sequential h r.hmd r.received r.returned × (r.hmd.updated ≡ true)
  Linear h r leaving = Sequential h r.hmd r.received (tracked_relation r.hmd ∷ r.returned)

  receive_pose-updated :
      (p : Option ProtoPose) (g : Hmd) → g.updated ≡ true → (receive_pose p g).updated ≡ true
  unfolding receive_pose
  receive_pose-updated none g u = u
  receive_pose-updated (some p) g u = refl

  receive_tracking-updated :
      (t : Option TrackingMessage) (g : Hmd)
      → g.updated ≡ true
      → (receive_tracking t g).updated ≡ true
  unfolding receive_tracking
  receive_tracking-updated none g u = u
  receive_tracking-updated (some t) g u = receive_pose-updated t.head_pose g u

  receive_pose-pose : (p : Option ProtoPose) (g : Hmd) → (receive_pose p g).pose ≡ g.pose
  unfolding receive_pose
  receive_pose-pose none g = refl
  receive_pose-pose (some p) g = refl

  receive_tracking-pose :
      (t : Option TrackingMessage) (g : Hmd) → (receive_tracking t g).pose ≡ g.pose
  unfolding receive_tracking
  receive_tracking-pose none g = refl
  receive_tracking-pose (some t) g = receive_pose-pose t.head_pose g

  query_lem :
      (b : Bool) (g : Hmd)
      → g.updated ≡ b
      → let k = if b then take_received normalize g else g in
        ems_hmd_get_tracked_pose normalize generic_head_pose g
        ≡ (k, success, some (tracked_relation k))
  unfolding ems_hmd_get_tracked_pose update_pose
  query_lem b g u =
      ap
        (λ c.
          let k = if c then take_received normalize g else g in
          (k, success, some (tracked_relation k)))
        u

  stored-Linear :
      (h : Hmd) (event : Event) (m : UpMessageSuper) (r : Race) (p : Phase)
      → Linear h r p
      → Linear h (record r { hmd = ems_hmd_handle_data event m r.hmd; received = m ∷ r.received }) p
  unfolding ems_hmd_handle_data
  stored-Linear h event m r outside s = handles event m s
  stored-Linear h event m r tested (s, u) =
      (handles event m s, receive_tracking-updated m.proto_message.tracking r.hmd u)
  stored-Linear h event m r leaving s =
      let g = ems_hmd_handle_data event m r.hmd in
      subst
        (λ p.
          Sequential h g (m ∷ r.received) (record (tracked_relation g) { pose = p } ∷ r.returned))
        (sym (receive_tracking-pose m.proto_message.tracking r.hmd)) (handles event m s)

  tested-Linear :
      (h : Hmd) (r : Race) (b : Bool)
      → r.hmd.updated ≡ b
      → Linear h r outside
      → Linear h (record r { phase = after_test b }) (after_test b)
  tested-Linear h r true u s = (s, u)
  tested-Linear h r false u s = queries (tracked_relation r.hmd) (query_lem false r.hmd u) s

  taken-Linear :
      (h : Hmd) (r : Race)
      → Linear h r tested
      → Linear h (record r { hmd = take_received normalize r.hmd; phase = leaving }) leaving
  taken-Linear h r (s, u) =
      queries (tracked_relation (take_received normalize r.hmd)) (query_lem true r.hmd u) s

  step-Linear : (h : Hmd) (q s : Race) → RaceStep q s → Linear h q q.phase → Linear h s s.phase
  step-Linear h q _ (stores event m _) l = stored-Linear h event m q q.phase l
  step-Linear h q _ (tests _ e) l = tested-Linear h q q.hmd.updated refl (subst (Linear h q) e l)
  step-Linear h q _ (takes _ e) l = taken-Linear h q (subst (Linear h q) e l)
  step-Linear h q _ (writes _ e) l = subst (Linear h q) e l

  Races-Linear : (q s : Race) → Linear q.hmd q q.phase → Races q s → Linear q.hmd s s.phase
  Races-Linear q _ l here = l
  Races-Linear q s l (next {q = r} rs step) = step-Linear q.hmd r s step (Races-Linear q r l rs)

  -- The test of `updated` without the lock does no harm: however the steps of a query and the messages
  -- that arrive interleave, once the query is over the display and the results of all queries are those of
  -- whole messages and whole queries, one after the other, with the messages in the order in which they
  -- were stored.
  pub race-IsSequential :
      (h : Hmd) (s : Race)
      → Races (quiet h) s
      → s.phase ≡ outside
      → Sequential h s.hmd s.received s.returned
  race-IsSequential h s rs e = subst (Linear h s) e (Races-Linear (quiet h) s starts rs)

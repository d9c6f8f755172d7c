-- ===== src/Pipeline/Uplink.antt =====
-- server/src/ems/gst/ems_gstreamer_pipeline.c: the messages that come up from the client.
use electric_maple.Common.{
  ◌≡◌, refl, Bool, Option, none, some, List, [], ◌∷◌, arith, if◌then◌else◌, true, false, ◌&&◌, ltb,
}
use electric_maple.Common.Int.{ℤ, pos, negsuc, is_zero}

-- `em_proto_UpMessage`, as far as it is handled: whether it has tracking, and its frame's average latency.
pub record UpMessage : Type 0 where
  pub has_tracking : Bool
  pub average_latency : Option ℤ

pub data CallbackEvent : Type 0 where
  tracking controller : CallbackEvent

-- The latency that the client reported last, and the static variables of the window: when it began, and
-- its maximum. Floats are a parameter.
pub record UpState (Float : Type 0) : Type 0 where
  pub client_average_latency : ℤ
  pub last_time_change_bitrate : ℤ
  pub max_latency_over_window : Float

-- `MAX` of an int64 and a float, 0.0f, and whether more than 5 s lie between two times.
pub record Floats (Float : Type 0) : Type 0 where
  pub max_of : ℤ → Float → Float
  pub zero_float : Float
  pub is_due : ℤ → ℤ → Bool

-- `ProtoMessage_decode_hand_joint_locations` stores each joint at the index that the message gives, in an
-- array of 26, without a check.
abbrev pub is_inside : ℤ → Bool
is_inside (pos n) = ltb n 26
is_inside (negsuc n) = false

abbrev pub are_inside : List ℤ → Bool
are_inside [] = true
are_inside (i ∷ is) = is_inside i && are_inside is

module _ {Float : Type 0} (fl : Floats Float) where
  unfoldable pub roll_window : ℤ → UpState Float → UpState Float
  roll_window now u =
      if is_zero u.last_time_change_bitrate
      then record u { last_time_change_bitrate = now }
      else if fl.is_due u.last_time_change_bitrate now
      then record u { last_time_change_bitrate = now; max_latency_over_window = fl.zero_float }
      else u

  unfoldable pub handle_frame : ℤ → Option ℤ → UpState Float → UpState Float
  handle_frame now none u = u
  handle_frame now (some latency) u =
      let rolled = roll_window now (record u { client_average_latency = latency }) in
      record rolled {
        max_latency_over_window =
            fl.max_of rolled.client_average_latency rolled.max_latency_over_window;
      }

  abbrev pub tracking_calls : Bool → List CallbackEvent
  tracking_calls b = if b then tracking ∷ controller ∷ [] else []

  -- What follows the decoding.
  unfoldable pub handle_decoded :
      ℤ → Option UpMessage → UpState Float → UpState Float × List CallbackEvent
  handle_decoded now none u = (u, [])
  handle_decoded now (some m) u =
      (handle_frame now m.average_latency u, tracking_calls m.has_tracking)

  -- The indexes of the joints that are decoded on the way, the decoded message, or none where it cannot be
  -- decoded: the new state and the calls of the callbacks, or none after a write beyond the joints.
  unfoldable pub handle_up_message :
      ℤ → List ℤ → Option UpMessage → UpState Float → Option (UpState Float × List CallbackEvent)
  handle_up_message now joints m u =
      if are_inside joints then some (handle_decoded now m u) else none

-- The latency that a message reports, or the one before.
unfoldable reported_latency : UpMessage → ℤ → ℤ
reported_latency m old = elim m.average_latency [ none ↦ old | some l ↦ l ]

module _ {Float : Type 0} (fl : Floats Float) where
  roll_window_lem :
      (now : ℤ) (u : UpState Float)
      → (roll_window fl now u).client_average_latency ≡ u.client_average_latency
  unfolding roll_window
  roll_window_lem now u = ground arith

  handle_frame_lem :
      (now : ℤ) (m : UpMessage) (u : UpState Float)
      → (handle_frame fl now m.average_latency u).client_average_latency
        ≡ reported_latency m u.client_average_latency
  unfolding handle_frame reported_latency
  handle_frame_lem now m u = pick m.average_latency
    where
      pick :
          (o : Option ℤ)
          → (handle_frame fl now o u).client_average_latency
            ≡ elim o [ none ↦ u.client_average_latency | some l ↦ l ]
      pick none = refl
      pick (some l) = roll_window_lem now _

  -- When no joint lies outside, the client's latency is the one that a decodable message with a frame reports.
  handle_one_lem :
      (now : ℤ) (joints : List ℤ) (m : UpMessage) (u : UpState Float)
      → are_inside joints ≡ true
      → (v : UpState Float) × (calls : List CallbackEvent) × (handle_up_message fl now joints
            (some m)
            u
          ≡ some (v, calls))
        × (v.client_average_latency ≡ reported_latency m u.client_average_latency)
  unfolding handle_up_message handle_decoded
  handle_one_lem now joints m u e = (
    handle_frame fl now m.average_latency u,
    tracking_calls fl m.has_tracking,
    rw e refl,
    handle_frame_lem now m u,
  )

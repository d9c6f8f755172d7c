-- ===== src/App/Bindings.antt =====
-- client/src/main.cpp: the actions of the controllers and what they are bound to.
use Prim.Native.String.{String}
use electric_maple.Common.{ℕ, ◌≡◌, refl, Bool, true, false, List, [], ◌∷◌, All, ◌==◌, ◌||◌}

pub data Action : Type 0 where
  grab_action aim_pose_action vibrate_action quit_action : Action

pub data ActionType : Type 0 where
  float_input pose_input vibration_output boolean_input : ActionType

-- The calls of `initialize_actions`, whose results are only logged. An action has a name, a localized
-- name and its subaction paths; a space belongs to the aim pose of a hand.
pub data ActionCall : Type 0 where
  create_action_set : String → String → ActionCall
  create_action : Action → ActionType → String → String → List String → ActionCall
  suggest_bindings : String → List (Action × String) → ActionCall
  create_action_space : Action → String → ActionCall
  attach_action_sets : ActionCall

abbrev pub left_hand : String
left_hand = "/user/hand/left"

abbrev pub right_hand : String
right_hand = "/user/hand/right"

abbrev hands : List String
hands = left_hand ∷ right_hand ∷ []

-- What is suggested for the simple controller.
unfoldable pub simple_bindings : List (Action × String)
simple_bindings =
    (grab_action, "/user/hand/left/input/select/click")
    ∷ (grab_action, "/user/hand/right/input/select/click")
    ∷ (aim_pose_action, "/user/hand/left/input/aim/pose")
    ∷ (aim_pose_action, "/user/hand/right/input/aim/pose")
    ∷ (quit_action, "/user/hand/left/input/menu/click")
    ∷ (quit_action, "/user/hand/right/input/menu/click")
    ∷ (vibrate_action, "/user/hand/left/output/haptic")
    ∷ (vibrate_action, "/user/hand/right/output/haptic")
    ∷ []

unfoldable pub initialize_actions : List ActionCall
initialize_actions =
    create_action_set "gameplay" "Gameplay"
    ∷ create_action grab_action float_input "grab_object" "Grab Object" hands
    ∷ create_action aim_pose_action pose_input "hand_aim_pose" "Hand Aim Pose" hands
    ∷ create_action vibrate_action vibration_output "vibrate_hand" "Vibrate Hand" hands
    ∷ create_action quit_action boolean_input "quit_session" "Quit Session" []
    ∷ suggest_bindings "/interaction_profiles/khr/simple_controller" simple_bindings
    ∷ create_action_space aim_pose_action left_hand
    ∷ create_action_space aim_pose_action right_hand
    ∷ attach_action_sets
    ∷ []

unfoldable pub action_code : Action → ℕ
action_code grab_action = 0
action_code aim_pose_action = 1
action_code vibrate_action = 2
action_code quit_action = 3

-- The actions that calls create, and those that they bind.
unfoldable pub created_actions : List ActionCall → List ℕ
created_actions [] = []
created_actions (create_action a t name localized paths ∷ calls) =
    action_code a ∷ created_actions calls
created_actions (_ ∷ calls) = created_actions calls

abbrev member : ℕ → List ℕ → Bool
member n [] = false
member n (m ∷ ms) = (n == m) || member n ms

-- Every action that is bound was created.
pub bound_actions_created :
    All
      (λ (b : Action × String).
        member (action_code b.0) (created_actions initialize_actions) ≡ true)
      simple_bindings
unfolding initialize_actions simple_bindings created_actions action_code
bound_actions_created = (refl, (refl, (refl, (refl, (refl, (refl, (refl, (refl, tt))))))))

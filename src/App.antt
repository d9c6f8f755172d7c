-- ===== src/App.antt =====
-- client/src/main.cpp: the Android application, its events and its main loop.
pub mod Polling
pub mod Bindings
pub mod Startup
use electric_maple.Common.{
  ℕ, suc, zero, Bool, true, false, not, ◌&&◌, ◌||◌, Option, none, some, List, [], ◌∷◌, ltb,
  if◌then◌else◌,
}
use electric_maple.Source.{option_map}
use electric_maple.Experience.{InputState, EmRemoteExperience}
use electric_maple.Experience.Frame.{
  FrameEnv, Frame, finished, aborted, em_remote_experience_poll_and_render_frame,
}

pub data AppCmd : Type 0 where
  start resume pause stop destroy init_window term_window other_cmd : AppCmd

-- `XR_SESSION_STATE_…`
pub data SessionState : Type 0 where
  unknown idle ready synchronized visible focused stopping loss_pending exiting : SessionState

unfoldable pub session_code : SessionState → ℕ
session_code unknown = 0
session_code idle = 1
session_code ready = 2
session_code synchronized = 3
session_code visible = 4
session_code focused = 5
session_code stopping = 6
session_code loss_pending = 7
session_code exiting = 8

-- What the application asks of the connection and of OpenXR.
pub data AppCall : Type 0 where
  disconnect begin_session end_session sync_actions sleep : AppCall

-- `struct em_state`, with the calls so far, the newest first.
pub record EmState : Type 0 where
  pub connected : Bool
  pub session_state : SessionState
  pub input : InputState
  pub window_initialized : Bool
  pub calls : List AppCall

-- Of `struct android_app`: whether there is a window, whether the activity is resumed, and whether it is
-- to be destroyed. Android's glue sets them.
pub record AndroidApp : Type 0 where
  pub window : Bool
  pub resumed : Bool
  pub destroy_requested : Bool

abbrev shut_down : EmState → EmState
shut_down s = record s { connected = false; calls = disconnect ∷ s.calls }

unfoldable pub on_app_cmd : AppCmd → EmState → EmState
on_app_cmd start s = s
on_app_cmd resume s = s
on_app_cmd pause s = s
on_app_cmd stop s = if s.window_initialized then shut_down s else s
on_app_cmd destroy s = s
on_app_cmd init_window s = record s { window_initialized = true }
on_app_cmd term_window s = shut_down s
on_app_cmd other_cmd s = s

unfoldable pub connected_cb : EmState → EmState
connected_cb s = record s { connected = true }

-- A result of `ALooper_pollOnce`: negative, or a source, whose command the glue processes and after which
-- it has set the app.
pub data PollResult : Type 0 where
  negative : PollResult
  no_source : PollResult
  source : AppCmd → AndroidApp → PollResult

abbrev pub waits : AndroidApp → Bool
waits app = not app.window || not app.resumed

unfoldable pub process : PollResult → AndroidApp × EmState → AndroidApp × EmState
process negative p = p
process no_source p = p
process (source cmd app') (app, s) = (app', on_app_cmd cmd s)

-- The loop ends at a negative result, and when the app stops being active in a turn that did not wait.
unfoldable pub ends_loop : PollResult → AndroidApp → AndroidApp → Bool
ends_loop negative before after = true
ends_loop no_source before after = not (waits before) && waits after
ends_loop (source cmd app') before after = not (waits before) && waits after

-- The endless loop on fuel; the poll numbered `n` has the result `poll n`.
unfoldable pub poll_android :
    ℕ → (ℕ → PollResult) → ℕ → AndroidApp × EmState → Option (AndroidApp × EmState)
poll_android zero poll n p = none
poll_android (suc fuel) poll n p =
    let next = process (poll n) p in
    let rest = poll_android fuel poll (suc n) next in
    if ends_loop (poll n) p.0 next.0 then some next else rest

abbrev pub session_calls : SessionState → List AppCall → List AppCall
session_calls ready calls = begin_session ∷ calls
session_calls stopping calls = end_session ∷ calls
session_calls _ calls = calls

-- An event of OpenXR: a session's new state, or any other event.
unfoldable pub handle_xr_event : Option SessionState → EmState → EmState
handle_xr_event none s = s
handle_xr_event (some state) s = record s {
  session_state = state;
  calls = session_calls state s.calls;
}

unfoldable pub poll_xr : List (Option SessionState) → EmState → EmState
poll_xr [] s = s
poll_xr (e ∷ es) s = poll_xr es (handle_xr_event e s)

-- The state of the actions: for each hand whether it is active and how it grabs.
pub record Actions : Type 0 where
  pub left_active : Bool
  pub right_active : Bool
  pub left_grab : ℕ
  pub right_grab : ℕ

unfoldable pub read_actions : Actions → EmState → EmState
read_actions a s = record s {
  input = record s.input {
    left_active = a.left_active;
    right_active = a.right_active;
    left_grab = a.left_grab;
    right_grab = a.right_grab;
  };
  calls = sync_actions ∷ s.calls;
}

-- Whether to render, and the state.
unfoldable pub after_events : Actions → EmState → Bool × EmState
after_events a s =
    if ltb (session_code s.session_state) (session_code ready)
    then (false, record s { calls = sleep ∷ s.calls })
    else (true, read_actions a s)

abbrev pub polled :
    List (Option SessionState) → Actions → AndroidApp × EmState → AndroidApp × Bool × EmState
polled es a (app, s) = let (b, s') = after_events a (poll_xr es s) in (app, b, s')

unfoldable pub poll_events :
    ℕ
    → (ℕ → PollResult)
    → List (Option SessionState)
    → Actions
    → AndroidApp × EmState
    → Option (AndroidApp × Bool × EmState)
poll_events fuel poll es a p = option_map (polled es a) (poll_android fuel poll 0 p)

-- `xrCreateHandTrackerEXT` and `xrLocateHandJointsEXT` are found or not, and each hand gets a tracker.
unfoldable pub initialize_handtracking : Bool → Bool → ℕ → ℕ → EmState → EmState
initialize_handtracking creates locates left right s =
    if creates
    then record s {
      input = record s.input {
        pfn_locate_hand_joints = locates;
        hand_tracker_left = left;
        hand_tracker_right = right;
      };
    }
    else s

-- One turn of the main loop's inputs, and the loop over turns; `none` is an abort or an endless poll.
pub record Turn : Type 0 where
  pub poll : ℕ → PollResult
  pub events : List (Option SessionState)
  pub actions : Actions
  pub frame : FrameEnv

pub record Running : Type 0 where
  pub app : AndroidApp
  pub state : EmState
  pub experience : EmRemoteExperience
  pub frames : ℕ

abbrev after_frame : AndroidApp → EmState → ℕ → Frame → Option Running
after_frame app s n (finished r x) =
    some (record { app = app; state = s; experience = x; frames = suc n })
after_frame app s n aborted = none

unfoldable pub render_turn :
    FrameEnv → Running → Option (AndroidApp × Bool × EmState) → Option Running
render_turn f r none = none
render_turn f r (some (app, false, s)) = some (record r { app = app; state = s })
render_turn f r (some (app, true, s)) =
    after_frame app s r.frames (em_remote_experience_poll_and_render_frame f s.input r.experience)

abbrev then_turn : (Running → Option Running) → Option Running → Option Running
then_turn f none = none
then_turn f (some r) = f r

-- The loop of `android_main` until the app is to be destroyed, or for as many turns as are given.
unfoldable pub main_loop : ℕ → List Turn → Running → Option Running
main_loop fuel [] r = some r
main_loop fuel (t ∷ ts) r =
    let next =
      render_turn t.frame r (poll_events fuel t.poll t.events t.actions (r.app, r.state)) in
    let rest = then_turn (main_loop fuel ts) next in
    if r.app.destroy_requested then some r else rest

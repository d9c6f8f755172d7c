-- ===== src/Tests/Commits.antt =====
-- The theorems of the compositor and of the application at concrete values.
use electric_maple.Common.{
  ℕ, zero, suc, ◌+◌, ◌≡◌, refl, true, false, not, Option, none, some, List, [], ◌∷◌, ltb,
}
use electric_maple.Common.Int.{pos}
use electric_maple.Compositor.{
  ViewData, Layer, projection, other_layer, Compositor, new_compositor, PackEnv,
  pack_blit_and_encode,
}
use electric_maple.Compositor.Message.{failed_begin_blocks}
use electric_maple.App.{
  EmState, AndroidApp, SessionState, ready, focused, stopping, session_code, Actions, PollResult,
  negative, source, init_window, poll_xr, after_events,
}
use electric_maple.App.Polling.{
  last_state, count_ready, count_stopping, begun, ended, session_followed,
}
use electric_maple.Tests.Rendering.{pose_at, input}

abbrev view_data : ℕ → ViewData
view_data n = record {
  rect = record { offset_w = pos 0; offset_h = pos 0; extent_w = pos 10; extent_h = pos 20 };
  array_index = 0;
  image_index = 1;
  pose = pose_at n;
}

abbrev layer : Layer
layer = record {
  layer_type = projection;
  left = view_data 3;
  right = view_data 4;
  left_images = λ n. n;
  right_images = λ n. n;
  flip_y = true;
}

abbrev pack_env : PackEnv
pack_env = record {
  now = 1000;
  unused_frame = some 5;
  begins = true;
  submits = true;
  system_clock = pos 1100;
  pipeline_clock = pos 100;
  push_now = 1100;
  adds_meta = true;
  encode = λ m. [];
}

-- A frame that is pushed, one whose submit fails, and a layer that is not handled.
abbrev layers : List (PackEnv × Layer)
layers =
    (pack_env, layer)
    ∷ (record pack_env { submits = false }, layer)
    ∷ (pack_env, record layer { layer_type = other_layer })
    ∷ []

abbrev no_begin : PackEnv
no_begin = record pack_env { begins = false }

failed_begin_blocks_example :
    (d : Compositor) × (pack_blit_and_encode
        (record { w = pos 10; h = pos 20 })
        (pos 1)
        (pos 900)
        no_begin
        layer
        new_compositor
      ≡ some d)
    × (pack_blit_and_encode (record { w = pos 10; h = pos 20 }) (pos 2) (pos 950) pack_env layer d
        ≡ none)
unfolding new_compositor
failed_begin_blocks_example =
    failed_begin_blocks (record { w = pos 10; h = pos 20 }) (pos 1) (pos 900) no_begin layer
      new_compositor 5 (pos 2) (pos 950) pack_env layer 5 refl refl refl refl

abbrev app : AndroidApp
app = record { window = true; resumed = true; destroy_requested = false }

abbrev state : EmState
state = record {
  connected = true;
  session_state = SessionState.idle;
  input = input;
  window_initialized = false;
  calls = [];
}

-- The window is initialised, and then nothing is pending.
abbrev looper : ℕ → PollResult
looper zero = source init_window app
looper (suc n) = negative

abbrev actions : Actions
actions = record { left_active = true; right_active = true; left_grab = 1; right_grab = 2 }

abbrev session_events : List (Option SessionState)
session_events = some ready ∷ none ∷ some focused ∷ some stopping ∷ []

session_followed_example :
    let (b, s') = after_events actions (poll_xr session_events state) in
    (b ≡ not (ltb (session_code (last_state session_events SessionState.idle)) 2))
    × (s'.session_state ≡ last_state session_events SessionState.idle)
    × (begun s'.calls ≡ count_ready session_events + begun [])
    × (ended s'.calls ≡ count_stopping session_events + ended [])
session_followed_example = session_followed session_events actions state

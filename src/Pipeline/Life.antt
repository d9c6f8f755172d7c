-- ===== src/Pipeline/Life.antt =====
-- server/src/ems/gst/ems_gstreamer_pipeline.c: the pipeline's creation, its bus, its timers, and how it is
-- played and stopped.
pub mod Stopping
use electric_maple.Common.{
  ℕ, ◌+◌, Bool, true, false, Option, none, some, List, [], ◌∷◌, ◌==◌, leb, length, if◌then◌else◌,
}
use electric_maple.Stream.{DownMessage}
use electric_maple.Stream.Bus.{
  GstState, null_state, playing, BusMessage, state_changed, error, eos, latency, is_playing,
}

-- The handlers that are connected to the signaling server.
pub data Hook : Type 0 where
  ws_client_connected up_message : Hook

-- `struct ems_gstreamer_pipeline`, with the hooks on the signaling server, the timers that run, the threads
-- that run the main loop, the references to clocks and elements that are not given back, and how often the
-- latency was computed again.
pub record EmsPipeline : Type 0 where
  pub pipeline : ℕ
  pub pipeline_state : GstState
  pub ntp : Option ℕ
  pub data_channel : Option ℕ
  pub timeout_src_id : Option ℕ
  pub main_loop : Option ℕ
  pub hooks : List Hook
  pub timers : List ℕ
  pub threads : ℕ
  pub providers : List ℕ
  pub recalculations : ℕ

-- The server's signaling server, which is a global, is made anew; the list has the one that is unref'd.
unfoldable pub renew_signaling_server : Option ℕ → ℕ → ℕ × List ℕ
renew_signaling_server none fresh = (fresh, [])
renew_signaling_server (some old) fresh = (fresh, old ∷ [])

-- The parsed pipeline, whose bus is watched, or the assertion on its error; the struct is part of the frame
-- context afterwards.
unfoldable pub ems_gstreamer_pipeline_create : Option ℕ → Option EmsPipeline
ems_gstreamer_pipeline_create none = none
ems_gstreamer_pipeline_create (some pipeline) = some (record {
  pipeline = pipeline;
  pipeline_state = null_state;
  ntp = none;
  data_channel = none;
  timeout_src_id = none;
  main_loop = none;
  hooks = up_message ∷ [];
  timers = [];
  threads = 0;
  providers = [];
  recalculations = 0;
})

-- The bus's watch; `provider` is what `gst_net_time_provider_new` makes. `none` is the end of the process by
-- `g_error`.
unfoldable pub gst_bus_cb : ℕ → BusMessage → EmsPipeline → Option EmsPipeline
gst_bus_cb provider (state_changed src new_state) p =
    if src == p.pipeline
    then if is_playing new_state
      then some (record p { ntp = some provider; providers = provider ∷ p.providers })
      else some p
    else some p
gst_bus_cb provider error p = none
gst_bus_cb provider eos p = none
gst_bus_cb provider latency p = some (record p { recalculations = p.recalculations + 1 })
gst_bus_cb provider _ p = some p

-- A new main loop, whether the state can be changed, and the thread that runs the loop.
unfoldable pub ems_gstreamer_pipeline_play : ℕ → Bool → EmsPipeline → Option EmsPipeline
ems_gstreamer_pipeline_play fresh_loop changes p =
    if changes
    then some (record p {
      main_loop = some fresh_loop;
      pipeline_state = playing;
      hooks = ws_client_connected ∷ p.hooks;
      threads = p.threads + 1;
    })
    else none

-- Who takes a message off the bus.
pub data Taker : Type 0 where
  by_watch : ℕ → Taker
  by_stop : Taker

-- A stop comes back, the watch ends the process, or the stop waits for more messages.
pub data Stopped : Type 0 where
  stopped : EmsPipeline → Stopped
  process_ends : Stopped
  still_waits : EmsPipeline → Stopped

abbrev pub ends_wait : BusMessage → Bool
ends_wait error = true
ends_wait eos = true
ends_wait _ = false

abbrev pub watched : (EmsPipeline → Stopped) → Option EmsPipeline → Stopped
watched f none = process_ends
watched f (some p) = f p

-- After the end of stream was sent: the messages of the bus in their order, each taken by the watch on its
-- thread or by the stop, which drops those that it does not wait for.
unfoldable pub ems_gstreamer_pipeline_stop : List (Taker × BusMessage) → EmsPipeline → Stopped
ems_gstreamer_pipeline_stop [] p = still_waits p
ems_gstreamer_pipeline_stop ((by_watch provider, m) ∷ rest) p =
    watched (ems_gstreamer_pipeline_stop rest) (gst_bus_cb provider m p)
ems_gstreamer_pipeline_stop ((by_stop, m) ∷ rest) p =
    let later = ems_gstreamer_pipeline_stop rest p in
    if ends_wait m then stopped (record p { pipeline_state = null_state }) else later

-- The data channel opens, with the id of the new timer, and closes.
unfoldable pub data_channel_open_cb : ℕ → EmsPipeline → EmsPipeline
data_channel_open_cb timer p = record p { timeout_src_id = some timer; timers = timer ∷ p.timers }

abbrev pub remove_source : ℕ → List ℕ → List ℕ
remove_source timer [] = []
remove_source timer (t ∷ ts) =
    let rest = remove_source timer ts in if t == timer then rest else t ∷ rest

abbrev pub remove_handle : Option ℕ → List ℕ → List ℕ
remove_handle none timers = timers
remove_handle (some timer) timers = remove_source timer timers

unfoldable pub data_channel_close_cb : EmsPipeline → EmsPipeline
data_channel_close_cb p = record p {
  timeout_src_id = none;
  data_channel = none;
  timers = remove_handle p.timeout_src_id p.timers;
}

-- The clock's time, or 0 without a clock.
unfoldable pub ems_gstreamer_pipeline_get_current_time : Option ℕ → ℕ
ems_gstreamer_pipeline_get_current_time none = 0
ems_gstreamer_pipeline_get_current_time (some current_time) = current_time

-- The bitrate that the element "enc" gets, which is the one that the pipeline finds.
unfoldable pub ems_gstreamer_pipeline_adjust_bitrate : Option ℕ → ℕ → List (ℕ × ℕ)
ems_gstreamer_pipeline_adjust_bitrate none target_bitrate = []
ems_gstreamer_pipeline_adjust_bitrate (some encoder) target_bitrate = (encoder, target_bitrate) ∷ []

-- nanopb's encoding fails if it does not fit the buffer, which is `size` bytes large.
unfoldable pub ems_gstreamer_pipeline_encode_down_msg :
    (DownMessage → Option (List ℕ)) → ℕ → DownMessage → Option (List ℕ)
ems_gstreamer_pipeline_encode_down_msg encode size msg = elim (encode msg) [
  | none ↦ none
  | some bytes ↦ if leb (length bytes) size then some bytes else none
]

-- Whether the factory is found, and what is unref'd.
unfoldable pub check_element_exists : Option ℕ → Bool × List ℕ
check_element_exists none = (false, [])
check_element_exists (some factory) = (true, factory ∷ [])

pub data LogLevel : Type 0 where
  log_error log_warning : LogLevel

-- GStreamer's level, of which 1 is an error, and the category's threshold.
unfoldable pub gst_android_log : ℕ → ℕ → Option LogLevel
gst_android_log level threshold =
    if leb level threshold then if level == 1 then some log_error else some log_warning else none

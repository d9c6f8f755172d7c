-- ===== src/Tests/Backend.antt =====
-- The theorems of the server's options and pipeline, and of the EGL context, at concrete values.
use Prim.Native.String.{String}
use text.Mathlib.Text.{◌==◌ as str_eq}
use electric_maple.Common.{
  ℕ, ◌+◌, ◌≡◌, refl, true, false, Option, none, some, List, [], ◌∷◌, if◌then◌else◌,
}
use electric_maple.Common.Int.{pos}
use electric_maple.Common.{arith}
use electric_maple.Common.Int.{◌-ℤ◌}
use electric_maple.Connection.{Connection, em_connection_init}
use electric_maple.Connection.Clock.{
  emconn_data_channel_message_data_cb, em_connection_get_server_clock_offset,
}
use electric_maple.Pipeline.ClockSync.{datachannel_send_clock, clock_message_sets_offset}
use electric_maple.Config.{Reader, ems_config_init_default, ems_config_init_from_json}
use electric_maple.Config.File.{success, map_option, config_of, at, file_values, config_from_file}
use electric_maple.Args.{Options, Arguments, x264, ems_arguments_parse, config_at, parse_config}
use electric_maple.Egl.{EglEnv, lifetime, AreDestroyed, objects_destroyed}
use electric_maple.Pipeline.Clients.{Payloader, Sinks}

-- A file whose every member is there: each node is the sum of what led to it.
abbrev full_reader : Reader
full_reader = record {
  Node = ℕ;
  member = λ n key. some (n + (if str_eq key "height" then 880 else 1680));
  element = λ n i. some (n + i);
  int_value = λ n. pos n;
  double_value = λ n. n;
}

config_from_file_example :
    success (ems_config_init_from_json full_reader (some 1) ems_config_init_default)
    ≡ map_option config_of (at (some 1) (file_values full_reader))
config_from_file_example = config_from_file full_reader (some 1) ems_config_init_default

abbrev load : String → Option ℕ
load path = if str_eq path "configs/bb.json" then some 1 else none

abbrev options : Options
options = record {
  bitrate = pos 16384;
  encoder_name = some "nvh264";
  device_config_json_path = some "configs/bb.json";
  benchmark_down_msg_loss = false;
  benchmark_latency = false;
  use_localhost = true;
}

abbrev no_arguments : Arguments
no_arguments = record {
  bitrate = 0;
  encoder_type = x264;
  benchmark_down_msg_loss = false;
  benchmark_latency = false;
  use_localhost = false;
}

parse_config_example :
    (ems_arguments_parse full_reader load (some options) no_arguments ems_config_init_default).1.1
    ≡ config_at full_reader load (some "configs/bb.json")
parse_config_example = parse_config full_reader load options no_arguments ems_config_init_default

-- No surface can be created.
abbrev no_surface : EglEnv
no_surface = record {
  display = true;
  initialized = true;
  num_configs = 2;
  context = some 4;
  surface = none;
}

objects_destroyed_example : AreDestroyed none (lifetime no_surface)
objects_destroyed_example = objects_destroyed no_surface

abbrev payloader : Payloader
payloader = record { rtppay = true; sink_pad = true; src_pad = true }

abbrev no_sinks : Sinks
no_sinks = record {
  video_host = none;
  audio_host = none;
  sink_probes = 0;
  src_probes = 0;
  timers = 0;
}

abbrev addresses : List String
addresses = "10.0.0.2" ∷ "10.0.0.3" ∷ []

abbrev unset_connection : Connection
unset_connection = record (em_connection_init 7) { server_offset = pos 0 }

clock_message_sets_offset_example :
    em_connection_get_server_clock_offset
      (emconn_data_channel_message_data_cb 1000 (datachannel_send_clock 770) unset_connection)
    ≡ pos 1000 -ℤ pos 770
clock_message_sets_offset_example =
    clock_message_sets_offset 770 1000 unset_connection (omega arith) (omega arith) refl

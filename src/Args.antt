-- ===== src/Args.antt =====
-- server/src/ems/gst/ems_pipeline_args.c: the server's options. GLib's option parser is a parameter: what it
-- leaves in the file's static variables.
use Prim.Native.String.{String}
use text.Mathlib.Text.{◌==◌ as str_eq}
use electric_maple.Common.{
  ℕ, ◌≡◌, refl, ap, ◌∙◌, Bool, true, false, Option, none, some, if◌then◌else◌,
}
use electric_maple.Common.Int.{ℤ}
use electric_maple.Config.{
  uint32, Reader, DeviceConfig, ems_config_init_default, ems_config_init_from_json,
}
use electric_maple.Config.File.{success, config_from_file, at, file_values, config_of, map_option}

pub data EmsEncoderType : Type 0 where
  x264 nvh264 nvautogpuh264 vulkanh264 openh264 vaapih264 vah264 amc auto : EmsEncoderType

pub record Options : Type 0 where
  pub bitrate : ℤ
  pub encoder_name : Option String
  pub device_config_json_path : Option String
  pub benchmark_down_msg_loss : Bool
  pub benchmark_latency : Bool
  pub use_localhost : Bool

-- The fields of `struct ems_arguments` that are set.
pub record Arguments : Type 0 where
  pub bitrate : ℕ
  pub encoder_type : EmsEncoderType
  pub benchmark_down_msg_loss : Bool
  pub benchmark_latency : Bool
  pub use_localhost : Bool

abbrev pub default_encoder_type : EmsEncoderType
default_encoder_type = x264

unfoldable pub encoder_of_name : String → EmsEncoderType
encoder_of_name name =
    if str_eq name "nvh264"
    then nvh264
    else if str_eq name "nvautogpuh264"
    then nvautogpuh264
    else if str_eq name "x264"
    then x264
    else if str_eq name "vulkanh264"
    then vulkanh264
    else if str_eq name "openh264"
    then openh264
    else if str_eq name "vaapih264"
    then vaapih264
    else if str_eq name "vah264"
    then vah264
    else default_encoder_type

unfoldable pub encoder_of : Option String → EmsEncoderType
encoder_of none = default_encoder_type
encoder_of (some name) = encoder_of_name name

unfoldable pub arguments_of : Options → Arguments
arguments_of o = record {
  bitrate = uint32 o.bitrate;
  encoder_type = encoder_of o.encoder_name;
  benchmark_down_msg_loss = o.benchmark_down_msg_loss;
  benchmark_latency = o.benchmark_latency;
  use_localhost = o.use_localhost;
}

-- The default config in place of one that was not read.
abbrev pub or_default : Bool × DeviceConfig → DeviceConfig
or_default (true, c) = c
or_default (false, c) = ems_config_init_default

module _ (r : Reader) (load : String → Option r.Node) where
  unfoldable pub load_config : Option String → DeviceConfig → DeviceConfig
  load_config none c = ems_config_init_default
  load_config (some path) c = or_default (ems_config_init_from_json r (load path) c)

  -- The options that were parsed, if they were, and the arguments and the config before.
  unfoldable pub ems_arguments_parse :
      Option Options → Arguments → DeviceConfig → Bool × (Arguments × DeviceConfig)
  ems_arguments_parse none a c = (false, (a, c))
  ems_arguments_parse (some o) a c =
      (true, (arguments_of o, load_config o.device_config_json_path c))

  -- The config of a path: that of the file's values, or the default without a path, a file or a value.
  abbrev pub config_at : Option String → DeviceConfig
  config_at path = elim (map_option config_of (at path (λ p. at (load p) (file_values r)))) [
    | none ↦ ems_config_init_default
    | some c ↦ c
  ]

  or_default-success :
      (x : Bool × DeviceConfig)
      → or_default x ≡ elim (success x) [ none ↦ ems_config_init_default | some c ↦ c ]
  or_default-success (true, c) = refl
  or_default-success (false, c) = refl

  load_lem : (path : Option String) (c : DeviceConfig) → load_config path c ≡ config_at path
  unfolding load_config
  load_lem none c = refl
  load_lem (some path) c =
      or_default-success (ems_config_init_from_json r (load path) c)
      ∙ ap (λ x. elim x [ none ↦ ems_config_init_default | some c ↦ c ])
          (config_from_file r (load path) c)

  -- When the options can be parsed, the config is afterwards that of the values of the file that they name,
  -- if it has all of them, and the default config otherwise; what it was before does not matter, nor what
  -- a read that fails has written.
  pub parse_config :
      (o : Options) (a : Arguments) (c : DeviceConfig)
      → (ems_arguments_parse (some o) a c).1.1 ≡ config_at o.device_config_json_path
  unfolding ems_arguments_parse
  parse_config o a c = load_lem o.device_config_json_path c

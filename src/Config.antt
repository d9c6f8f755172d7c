-- ===== src/Config.antt =====
-- server/src/ems/ems_config.c: the device config and its JSON file. JsonReader is a parameter: the code
-- moves its cursor into a member and back, and leaves the function where a member is missing.
pub mod File
use Prim.Native.String.{String}
use electric_maple.Common.{
  ℕ, ◌-◌, ◌%◌, ◌^◌, Bool, true, false, Option, none, some, if◌then◌else◌, ltb,
}
use electric_maple.Common.Int.{ℤ, pos, negsuc}

-- Floats are their bits; `double_value` is the member's double as the code's float.
pub record Reader : Type 1 where
  pub Node : Type 0
  pub member : Node → String → Option Node
  pub element : Node → ℕ → Option Node
  pub int_value : Node → ℤ
  pub double_value : Node → ℕ

pub record Size : Type 0 where
  pub w : ℤ
  pub h : ℤ

pub record Fov : Type 0 where
  pub angle_left : ℕ
  pub angle_right : ℕ
  pub angle_up : ℕ
  pub angle_down : ℕ

pub record DeviceConfig : Type 0 where
  pub refresh_rate_hz : ℕ
  pub resolution_native_per_eye_pixels : Size
  pub resolution_stream_stereo_pixels : Size
  pub fov_left : Fov
  pub fov_right : Fov

-- The bits of -0.942f, 0.698f, 0.768f and -0.960f, and then of -0.698f and 0.942f.
abbrev default_left_fov : Fov
default_left_fov = record {
  angle_left = 3211863785;
  angle_right = 1060286497;
  angle_up = 1061460902;
  angle_down = 3212165775;
}

abbrev default_right_fov : Fov
default_right_fov = record {
  angle_left = 3207770145;
  angle_right = 1064380137;
  angle_up = 1061460902;
  angle_down = 3212165775;
}

unfoldable pub ems_config_init_default : DeviceConfig
ems_config_init_default = record {
  refresh_rate_hz = 72;
  resolution_native_per_eye_pixels = record { w = pos 1680; h = pos 1760 };
  resolution_stream_stereo_pixels = record { w = pos 1680; h = pos 880 };
  fov_left = default_left_fov;
  fov_right = default_right_fov;
}

-- An int64_t as uint32_t and as int.
abbrev pub uint32 : ℤ → ℕ
uint32 (pos n) = n % 2 ^ 32
uint32 (negsuc n) = 2 ^ 32 - 1 - n % 2 ^ 32

abbrev pub int32 : ℤ → ℤ
int32 i = let n = uint32 i in if ltb n (2 ^ 31) then pos n else negsuc (2 ^ 32 - 1 - n)

-- Whether reading goes on or returned false, with what it has written so far.
pub data Reading : Type 0 where
  reading : DeviceConfig → Reading
  failed : DeviceConfig → Reading

abbrev pub and_then : Reading → (DeviceConfig → Reading) → Reading
and_then (reading c) f = f c
and_then (failed c) f = failed c

-- The assignments to the fields.
abbrev pub set_refresh_rate : ℤ → DeviceConfig → DeviceConfig
set_refresh_rate i c = record c { refresh_rate_hz = uint32 i }

abbrev pub set_native_w : ℤ → DeviceConfig → DeviceConfig
set_native_w i c = record c {
  resolution_native_per_eye_pixels = record c.resolution_native_per_eye_pixels { w = int32 i };
}

abbrev pub set_native_h : ℤ → DeviceConfig → DeviceConfig
set_native_h i c = record c {
  resolution_native_per_eye_pixels = record c.resolution_native_per_eye_pixels { h = int32 i };
}

abbrev pub set_stream_w : ℤ → DeviceConfig → DeviceConfig
set_stream_w i c = record c {
  resolution_stream_stereo_pixels = record c.resolution_stream_stereo_pixels { w = int32 i };
}

abbrev pub set_stream_h : ℤ → DeviceConfig → DeviceConfig
set_stream_h i c = record c {
  resolution_stream_stereo_pixels = record c.resolution_stream_stereo_pixels { h = int32 i };
}

abbrev pub set_left : ((Fov → Fov) → DeviceConfig → DeviceConfig) → ℕ → DeviceConfig → DeviceConfig
set_left on d = on (λ f. record f { angle_left = d })

abbrev pub set_right : ((Fov → Fov) → DeviceConfig → DeviceConfig) → ℕ → DeviceConfig → DeviceConfig
set_right on d = on (λ f. record f { angle_right = d })

abbrev pub set_up : ((Fov → Fov) → DeviceConfig → DeviceConfig) → ℕ → DeviceConfig → DeviceConfig
set_up on d = on (λ f. record f { angle_up = d })

abbrev pub set_down : ((Fov → Fov) → DeviceConfig → DeviceConfig) → ℕ → DeviceConfig → DeviceConfig
set_down on d = on (λ f. record f { angle_down = d })

-- The two elements of `fov_radians`.
abbrev pub on_left : (Fov → Fov) → DeviceConfig → DeviceConfig
on_left f c = record c { fov_left = f c.fov_left }

abbrev pub on_right : (Fov → Fov) → DeviceConfig → DeviceConfig
on_right f c = record c { fov_right = f c.fov_right }

-- The function's result and the config.
abbrev pub returned : Reading → Bool × DeviceConfig
returned (reading c) = (true, c)
returned (failed c) = (false, c)

module _ (r : Reader) where
  open r use {Node, member, element, int_value, double_value}

  -- `json_reader_read_member` or `json_reader_read_element`, what is read there, and the way back.
  abbrev pub enter : Option Node → (Node → DeviceConfig → Reading) → DeviceConfig → Reading
  enter none f c = failed c
  enter (some n) f c = f n c

  abbrev pub write_int : (ℤ → DeviceConfig → DeviceConfig) → Node → DeviceConfig → Reading
  write_int set n c = reading (set (int_value n) c)

  abbrev pub write_double : (ℕ → DeviceConfig → DeviceConfig) → Node → DeviceConfig → Reading
  write_double set n c = reading (set (double_value n) c)

  unfoldable pub read_native : Node → DeviceConfig → Reading
  read_native n c =
      and_then (enter (member n "width") (write_int set_native_w) c)
        (enter (member n "height") (write_int set_native_h))

  unfoldable pub read_stream : Node → DeviceConfig → Reading
  read_stream n c =
      and_then (enter (member n "width") (write_int set_stream_w) c)
        (enter (member n "height") (write_int set_stream_h))

  -- An element of "fov_radians", written through an accessor of the array's element.
  unfoldable pub read_fov :
      ((Fov → Fov) → DeviceConfig → DeviceConfig) → Node → DeviceConfig → Reading
  read_fov on n c = and_then (enter (member n "angle_left") (write_double (set_left on)) c) (λ c.
      and_then (enter (member n "angle_right") (write_double (set_right on)) c) (λ c.
        and_then (enter (member n "angle_up") (write_double (set_up on)) c)
          (enter (member n "angle_down") (write_double (set_down on)))))

  unfoldable pub read_fovs : Node → DeviceConfig → Reading
  read_fovs n c =
      and_then (enter (element n 0) (read_fov on_left) c) (enter (element n 1) (read_fov on_right))

  unfoldable pub read_root : Node → DeviceConfig → Reading
  read_root root c =
      and_then (enter (member root "refresh_rate_hz") (write_int set_refresh_rate) c) (λ c.
        and_then (enter (member root "resolution_native_per_eye_pixels") read_native c) (λ c.
          and_then (enter (member root "resolution_stream_stereo_pixels") read_stream c)
            (enter (member root "fov_radians") read_fovs)))

  -- The file's root, if the file can be parsed; true with the config read, or false with what is written.
  unfoldable pub ems_config_init_from_json : Option Node → DeviceConfig → Bool × DeviceConfig
  ems_config_init_from_json none c = (false, c)
  ems_config_init_from_json (some root) c = returned (read_root root c)

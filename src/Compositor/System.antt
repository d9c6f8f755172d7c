-- ===== src/Compositor/System.antt =====
-- server/src/ems/ems_compositor.cpp: what the system compositor tells about its views and its frames.
use electric_maple.Common.{ℕ, Option, none, some, List, [], ◌∷◌}
use electric_maple.Common.Int.{ℤ, pos}
use electric_maple.Config.{DeviceConfig, Size}

pub record ViewInfo : Type 0 where
  pub recommended : Size
  pub recommended_samples : ℕ
  pub max : Size
  pub max_samples : ℕ

-- The fields of `xrt_system_compositor_info` that the compositor sets. A blend mode is a number, and
-- a refresh rate the bits of a float.
pub record SystemInfo : Type 0 where
  pub max_layers : ℕ
  pub left_view : ViewInfo
  pub right_view : ViewInfo
  pub supported_blend_modes : List ℕ
  pub refresh_rates_hz : List ℕ

abbrev view_info : Size → ViewInfo
view_info size = record {
  recommended = size;
  recommended_samples = 1;
  max = record { w = pos 2048; h = pos 2048 };
  max_samples = 1;
}

-- The rate that a frame interval stands for is a parameter. `none` is the failed assertion that the head has
-- a blend mode.
unfoldable pub compositor_init_sys_info : (ℕ → ℕ) → DeviceConfig → List ℕ → ℕ → Option SystemInfo
compositor_init_sys_info rate config [] interval = none
compositor_init_sys_info rate config (mode ∷ modes) interval = some (record {
  max_layers = 16;
  left_view = view_info config.resolution_native_per_eye_pixels;
  right_view = view_info config.resolution_native_per_eye_pixels;
  supported_blend_modes = mode ∷ modes;
  refresh_rates_hz = rate interval ∷ [];
})

-- The points of a frame that the pacing helper is told.
pub data TimingPoint : Type 0 where
  wake_up begin submit_begin submit_end : TimingPoint

pub data FramePoint : Type 0 where
  woke other_point : FramePoint

-- The mark for the pacing helper, or `none` for the failed assertion.
unfoldable pub ems_compositor_mark_frame : ℤ → FramePoint → ℤ → Option (TimingPoint × ℤ × ℤ)
ems_compositor_mark_frame frame_id woke when_ns = some (wake_up, frame_id, when_ns)
ems_compositor_mark_frame frame_id other_point when_ns = none

-- The marks of a commit, around its layers: when it begins, and twice at its end.
unfoldable pub commit_marks : ℤ → ℤ → ℤ → ℤ → List (TimingPoint × ℤ × ℤ)
commit_marks frame_id begin_ns submit_begin_ns submit_end_ns =
    (begin, frame_id, begin_ns)
    ∷ (submit_begin, frame_id, submit_begin_ns)
    ∷ (submit_end, frame_id, submit_end_ns)
    ∷ []

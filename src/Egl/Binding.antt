-- ===== src/Egl/Binding.antt =====
-- client/src/em/render/em_egl_context.c: what OpenXR is told of the EGL objects, and making them current.
use electric_maple.Common.{ℕ, Bool, Option}
use electric_maple.Egl.{EmEglContext}

-- `XrGraphicsBindingOpenGLESAndroidKHR`; the display and the config are numbers that the object has besides.
pub record GraphicsBinding : Type 0 where
  pub display : ℕ
  pub config : ℕ
  pub context : Option ℕ

unfoldable pub em_egl_context_get_graphics_binding : ℕ → ℕ → EmEglContext → GraphicsBinding
em_egl_context_get_graphics_binding display config self = record {
  display = display;
  config = config;
  context = self.context;
}

-- What `eglMakeCurrent` answers for a display, the surface for both drawing and reading, and a context.
unfoldable pub em_egl_context_make_current :
    (ℕ → Option ℕ → Option ℕ → Option ℕ → Bool) → ℕ → EmEglContext → Bool
em_egl_context_make_current make_current display self =
    make_current display self.surface self.surface self.context

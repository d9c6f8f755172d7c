-- ===== src/Render/Debug.antt =====
-- client/src/em/render/gl_error.cpp and gl_debug.cpp: the checks for errors of OpenGL and EGL, and how the
-- messages of OpenGL are logged.
use Prim.Native.String.{String}
use electric_maple.Common.{ℕ, Bool, true, false, List, [], ◌∷◌, ◌==◌, if◌then◌else◌}

-- A line of the log: where the error was found, and its code.
pub data ErrorLine : Type 0 where
  gl_error egl_error : ℕ → ErrorLine
  gl_error_at egl_error_at : String → ℕ → ErrorLine

-- What `glGetError` returns, of which GL_NO_ERROR is 0.
unfoldable pub check_gl_error : ℕ → Bool × List ErrorLine
check_gl_error err = if err == 0 then (true, []) else (false, gl_error err ∷ [])

unfoldable pub check_gl_error_wrap : String → ℕ → List ErrorLine
check_gl_error_wrap when err = if err == 0 then [] else gl_error_at when err ∷ []

-- EGL_SUCCESS is 0x3000.
unfoldable pub check_egl_error : ℕ → Bool × List ErrorLine
check_egl_error err = if err == 12288 then (true, []) else (false, egl_error err ∷ [])

unfoldable pub check_egl_error_wrap : String → ℕ → List ErrorLine
check_egl_error_wrap when err = if err == 12288 then [] else egl_error_at when err ∷ []

-- Where a message of OpenGL comes from, its type and its severity; `…_other` stands for any other number too.
pub data DebugSource : Type 0 where
  api window_system shader_compiler third_party application other_source unknown_source :
      DebugSource

pub data DebugType : Type 0 where
  error deprecated_behavior undefined_behavior portability performance other_type : DebugType
  marker push_group pop_group unknown_type : DebugType

pub data Severity : Type 0 where
  high medium low notification unknown_severity : Severity

pub data AndroidLogPriority : Type 0 where
  log_verbose log_debug log_info log_warn log_error : AndroidLogPriority

unfoldable pub gl_debug_source_to_string : DebugSource → String
gl_debug_source_to_string api = "GL_DEBUG_SOURCE_API"
gl_debug_source_to_string window_system = "GL_DEBUG_SOURCE_WINDOW_SYSTEM"
gl_debug_source_to_string shader_compiler = "GL_DEBUG_SOURCE_SHADER_COMPILER"
gl_debug_source_to_string third_party = "GL_DEBUG_SOURCE_THIRD_PARTY"
gl_debug_source_to_string application = "GL_DEBUG_SOURCE_APPLICATION"
gl_debug_source_to_string other_source = "GL_DEBUG_SOURCE_OTHER"
gl_debug_source_to_string unknown_source = "unknown-source"

unfoldable pub gl_debug_type_to_string : DebugType → String
gl_debug_type_to_string error = "GL_DEBUG_TYPE_ERROR"
gl_debug_type_to_string deprecated_behavior = "GL_DEBUG_TYPE_DEPRECATED_BEHAVIOR"
gl_debug_type_to_string undefined_behavior = "GL_DEBUG_TYPE_UNDEFINED_BEHAVIOR"
gl_debug_type_to_string portability = "GL_DEBUG_TYPE_PORTABILITY"
gl_debug_type_to_string performance = "GL_DEBUG_TYPE_PERFORMANCE"
gl_debug_type_to_string other_type = "GL_DEBUG_TYPE_OTHER"
gl_debug_type_to_string marker = "GL_DEBUG_TYPE_MARKER"
gl_debug_type_to_string push_group = "GL_DEBUG_TYPE_PUSH_GROUP"
gl_debug_type_to_string pop_group = "GL_DEBUG_TYPE_POP_GROUP"
gl_debug_type_to_string unknown_type = "unknown-type"

unfoldable pub gl_debug_severity_to_android_log_priority : Severity → AndroidLogPriority
gl_debug_severity_to_android_log_priority high = log_error
gl_debug_severity_to_android_log_priority medium = log_warn
gl_debug_severity_to_android_log_priority low = log_info
gl_debug_severity_to_android_log_priority notification = log_debug
gl_debug_severity_to_android_log_priority unknown_severity = log_verbose

-- The parts of the line that is logged.
pub record DebugLine : Type 0 where
  pub priority : AndroidLogPriority
  pub source_text : String
  pub type_text : String
  pub id : ℕ
  pub message : String

unfoldable pub gl_debug_callback : DebugSource → DebugType → ℕ → Severity → String → DebugLine
gl_debug_callback s t n severity text = record {
  priority = gl_debug_severity_to_android_log_priority severity;
  source_text = gl_debug_source_to_string s;
  type_text = gl_debug_type_to_string t;
  id = n;
  message = text;
}

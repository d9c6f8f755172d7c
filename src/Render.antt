-- ===== src/Render.antt =====
-- client/src/em/render/render.cpp and gl_swapchain.cpp: the OpenGL objects of the renderer and of the
-- swapchain's framebuffers.
pub mod Objects
pub mod Framebuffers
pub mod Debug
use electric_maple.Common.{
  ℕ, suc, Bool, true, false, Option, none, some, List, [], ◌∷◌, ◌==◌, if◌then◌else◌,
}

-- What is created and destroyed: OpenGL's objects, and OpenXR's, of which the remote experience has some.
pub data Resource : Type 0 where
  shader program vertex_array buffer framebuffer swapchain space : Resource

-- `struct Vertex`: a position and a texture coordinate; floats are their bits.
pub record Vertex : Type 0 where
  pub x : ℕ
  pub y : ℕ
  pub z : ℕ
  pub u : ℕ
  pub v : ℕ

-- The calls that the code makes, of which a log has the newest first. An attribute has an index, a
-- size, a stride and an offset; a uniform has a location and a value.
pub data Call : Type 0 where
  created : Resource → ℕ → Call
  destroyed : Resource → ℕ → Call
  compile_shader link_program use_program : ℕ → Call
  attach_shader : ℕ → ℕ → Call
  bind_framebuffer bind_vertex_array bind_array_buffer : ℕ → Call
  buffer_data : List Vertex → Call
  vertex_attrib_pointer : ℕ → ℕ → ℕ → ℕ → Call
  enable_vertex_attrib_array : ℕ → Call
  attach_texture : ℕ → ℕ → Call
  active_texture : ℕ → Call
  bind_texture : ℕ → ℕ → Call
  uniform : ℕ → ℕ → Call
  viewport : ℕ → ℕ → Call
  clear_color disable_framebuffer_srgb draw_arrays : Call

-- `class Renderer`: names of OpenGL objects, 0 for none.
pub record Renderer : Type 0 where
  pub program : ℕ
  pub quad_vao : ℕ
  pub quad_vbo : ℕ
  pub texture_sampler_location : ℕ

unfoldable pub new_renderer : Renderer
new_renderer = record { program = 0; quad_vao = 0; quad_vbo = 0; texture_sampler_location = 0 }

-- The names that OpenGL gives, 0 where it cannot create the object.
pub record GlNames : Type 0 where
  pub vertex_shader : ℕ
  pub fragment_shader : ℕ
  pub program : ℕ
  pub vao : ℕ
  pub vbo : ℕ
  pub location : ℕ

unfoldable pub setup_shaders : GlNames → Renderer × List Call → Renderer × List Call
setup_shaders g (r, calls) = (
  record r { program = g.program; texture_sampler_location = g.location },
  destroyed shader g.fragment_shader
      ∷ destroyed shader g.vertex_shader
      ∷ link_program g.program
      ∷ attach_shader g.program g.fragment_shader
      ∷ attach_shader g.program g.vertex_shader
      ∷ created Resource.program g.program
      ∷ compile_shader g.fragment_shader
      ∷ created shader g.fragment_shader
      ∷ compile_shader g.vertex_shader
      ∷ created shader g.vertex_shader
      ∷ calls,
)

-- 1.0f and -1.0f
abbrev plus : ℕ
plus = 1065353216

abbrev minus : ℕ
minus = 3212836864

abbrev vertex : ℕ → ℕ → ℕ → ℕ → Vertex
vertex x y u v = record { x = x; y = y; z = 0; u = u; v = v }

unfoldable pub quad_vertices : List Vertex
quad_vertices =
    vertex minus plus 0 0
    ∷ vertex minus minus 0 plus
    ∷ vertex plus minus plus plus
    ∷ vertex plus plus plus 0
    ∷ []

-- A vertex has five floats of four bytes.
unfoldable pub setup_quad_vertex_data : GlNames → Renderer × List Call → Renderer × List Call
setup_quad_vertex_data g (r, calls) = (
  record r { quad_vao = g.vao; quad_vbo = g.vbo },
  bind_vertex_array 0
      ∷ enable_vertex_attrib_array 1
      ∷ vertex_attrib_pointer 1 2 20 12
      ∷ enable_vertex_attrib_array 0
      ∷ vertex_attrib_pointer 0 3 20 0
      ∷ buffer_data quad_vertices
      ∷ bind_array_buffer g.vbo
      ∷ bind_vertex_array g.vao
      ∷ created buffer g.vbo
      ∷ created vertex_array g.vao
      ∷ calls,
)

unfoldable pub setup_render : GlNames → Renderer × List Call → Renderer × List Call
setup_render g p = setup_quad_vertex_data g (setup_shaders g p)

-- Destroys an object that is there.
abbrev pub destroy_named : Resource → ℕ → List Call → List Call
destroy_named r n calls = if n == 0 then calls else destroyed r n ∷ calls

unfoldable pub reset : Renderer × List Call → Renderer × List Call
reset (r, calls) = (
  record r { program = 0; quad_vao = 0; quad_vbo = 0 },
  destroy_named buffer r.quad_vbo
      (destroy_named vertex_array r.quad_vao (destroy_named Resource.program r.program calls)),
)

-- The texture unit 0 is the sampler's.
unfoldable pub draw : ℕ → ℕ → Renderer → List Call → List Call
draw texture target r calls =
    bind_vertex_array 0
    ∷ draw_arrays
    ∷ bind_vertex_array r.quad_vao
    ∷ uniform r.texture_sampler_location 0
    ∷ bind_texture target texture
    ∷ active_texture 0
    ∷ use_program r.program
    ∷ calls

-- `class GLSwapchain`: the textures of the images and the names of the framebuffers.
pub record GlSwapchain : Type 0 where
  pub images : List ℕ
  pub framebuffers : List ℕ

unfoldable pub no_framebuffers : GlSwapchain
no_framebuffers = record { images = []; framebuffers = [] }

-- What OpenXR and OpenGL answer: the number of images and the images (`none` is a failure), the names of
-- the framebuffers, and which of them are complete.
pub record SwapchainEnv : Type 0 where
  pub count : Option ℕ
  pub images : Option (List ℕ)
  pub framebuffer_name : ℕ → ℕ
  pub is_complete : ℕ → Bool

-- A name for each image, the first for the index `i`.
unfoldable pub gen_framebuffers : (ℕ → ℕ) → ℕ → List ℕ → List ℕ
gen_framebuffers name i [] = []
gen_framebuffers name i (_ ∷ images) = name i ∷ gen_framebuffers name (suc i) images

unfoldable pub log_created : Resource → List ℕ → List Call → List Call
log_created r [] calls = calls
log_created r (n ∷ ns) calls = log_created r ns (created r n ∷ calls)

unfoldable pub log_destroyed : Resource → List ℕ → List Call → List Call
log_destroyed r [] calls = calls
log_destroyed r (n ∷ ns) calls = log_destroyed r ns (destroyed r n ∷ calls)

-- The loop over the framebuffers; it stops at the first that is not complete.
unfoldable pub associate : (ℕ → Bool) → List ℕ → List ℕ → List Call → Bool × List Call
associate is_complete [] images calls = (true, calls)
associate is_complete (f ∷ fs) [] calls = (true, calls)
associate is_complete (f ∷ fs) (i ∷ images) calls =
    let next = attach_texture f i ∷ bind_framebuffer f ∷ calls in
    let rest = associate is_complete fs images next in if is_complete f then rest else (false, next)

unfoldable pub delete_framebuffers : GlSwapchain → List ℕ → List Call → GlSwapchain × List Call
delete_framebuffers s [] calls = (s, calls)
delete_framebuffers s (f ∷ fs) calls = (no_framebuffers, log_destroyed framebuffer (f ∷ fs) calls)

-- Nothing is cleared when there is no framebuffer.
unfoldable pub reset_swapchain : GlSwapchain → List Call → GlSwapchain × List Call
reset_swapchain s calls = delete_framebuffers s s.framebuffers calls

-- The result with the swapchain and the calls.
pub record Enumerated : Type 0 where
  pub result : Bool
  pub swapchain : GlSwapchain
  pub calls : List Call

unfoldable pub cleaned_up : GlSwapchain × List Call → Enumerated
cleaned_up (s, calls) = record { result = false; swapchain = s; calls = calls }

unfoldable pub check_success : GlSwapchain → Bool × List Call → Enumerated
check_success s (true, calls) = record {
  result = true;
  swapchain = s;
  calls = bind_framebuffer 0 ∷ calls;
}
check_success s (false, calls) = cleaned_up (reset_swapchain s (bind_framebuffer 0 ∷ calls))

unfoldable pub generate : SwapchainEnv → List ℕ → List Call → Enumerated
generate e images calls =
    let names = gen_framebuffers e.framebuffer_name 0 images in
    check_success (record { images = images; framebuffers = names })
      (associate e.is_complete names images (log_created framebuffer names calls))

unfoldable pub fetch_images : SwapchainEnv → Option (List ℕ) → List Call → Enumerated
fetch_images e none calls = record { result = false; swapchain = no_framebuffers; calls = calls }
fetch_images e (some images) calls = generate e images calls

unfoldable pub count_images : SwapchainEnv → Option ℕ → Option (List ℕ) → List Call → Enumerated
count_images e none images calls = record {
  result = false;
  swapchain = no_framebuffers;
  calls = calls;
}
count_images e (some n) images calls = fetch_images e images calls

-- `none` is a failed assertion.
unfoldable pub enumerate_and_generate_framebuffers :
    SwapchainEnv → GlSwapchain → List Call → Option Enumerated
enumerate_and_generate_framebuffers e s calls = assert_empty s.images s.framebuffers
  where
    assert_empty : List ℕ → List ℕ → Option Enumerated
    assert_empty [] [] = some (count_images e e.count e.images calls)
    assert_empty [] (_ ∷ _) = none
    assert_empty (_ ∷ _) _ = none

-- ===== src/Render/Objects.antt =====
-- client/src/em/render/render.cpp and gl_swapchain.cpp: each object that is created is destroyed.
use electric_maple.Common.{ℕ, ◌+◌, ◌≡◌, List, [], ◌∷◌, ◌==◌, if◌then◌else◌, arith, suc, zero}
use electric_maple.Render.{
  Resource, Call, created, destroyed, Renderer, GlNames, setup_render, setup_shaders,
  setup_quad_vertex_data, reset, draw, GlSwapchain, log_created, log_destroyed, delete_framebuffers,
  reset_swapchain, vertex_array, buffer, framebuffer,
}

-- A weight of the objects. The weight that is 1 for one object and 0 for all others counts that object.
abbrev pub Weight : Type 0
Weight = Resource → ℕ → ℕ

-- No object has the name 0.
abbrev pub IsWeight : Weight → Type 0
IsWeight w = (r : Resource) → w r 0 ≡ 0

unfoldable pub weight_created : Weight → List Call → ℕ
weight_created w [] = 0
weight_created w (created r n ∷ calls) = w r n + weight_created w calls
weight_created w (_ ∷ calls) = weight_created w calls

unfoldable pub weight_destroyed : Weight → List Call → ℕ
weight_destroyed w [] = 0
weight_destroyed w (destroyed r n ∷ calls) = w r n + weight_destroyed w calls
weight_destroyed w (_ ∷ calls) = weight_destroyed w calls

-- The weight of all the objects of a kind that a list names.
unfoldable pub weight_of : Weight → Resource → List ℕ → ℕ
weight_of w r [] = 0
weight_of w r (n ∷ ns) = w r n + weight_of w r ns

-- What was created in a log is what was destroyed and `held`.
abbrev pub IsHeld : Weight → ℕ → List Call → Type 0
IsHeld w held calls = weight_created w calls ≡ weight_destroyed w calls + held

abbrev pub renderer_weight : Weight → Renderer → ℕ
renderer_weight w r = w Resource.program r.program + w vertex_array r.quad_vao + w buffer r.quad_vbo

abbrev pub swapchain_weight : Weight → GlSwapchain → ℕ
swapchain_weight w s = weight_of w framebuffer s.framebuffers

pub destroyed-IsHeld :
    (w : Weight) (r : Resource) (n held : ℕ) (calls : List Call)
    → IsWeight w
    → IsHeld w (w r n + held) calls
    → IsHeld w held (if n == 0 then calls else destroyed r n ∷ calls)
unfolding weight_created weight_destroyed
destroyed-IsHeld w r zero held calls z h = omega (arith, z r, h)
destroyed-IsHeld w r (suc n) held calls z h = grind (arith, h)

pub log_created-IsHeld :
    (w : Weight) (r : Resource) (ns : List ℕ) (held : ℕ) (calls : List Call)
    → IsHeld w held calls
    → IsHeld w (weight_of w r ns + held) (log_created r ns calls)
unfolding weight_created weight_destroyed weight_of log_created
log_created-IsHeld w r [] held calls h = omega (arith, h)
log_created-IsHeld w r (n ∷ ns) held calls h =
    omega (arith, log_created-IsHeld w r ns (w r n + held) (created r n ∷ calls) (omega (arith, h)))

pub log_destroyed-IsHeld :
    (w : Weight) (r : Resource) (ns : List ℕ) (held : ℕ) (calls : List Call)
    → IsHeld w (weight_of w r ns + held) calls
    → IsHeld w held (log_destroyed r ns calls)
unfolding weight_created weight_destroyed weight_of log_destroyed
log_destroyed-IsHeld w r [] held calls h = omega (arith, h)
log_destroyed-IsHeld w r (n ∷ ns) held calls h =
    log_destroyed-IsHeld w r ns held (destroyed r n ∷ calls) (omega (arith, h))

pub setup_render-IsHeld :
    (w : Weight) (g : GlNames) (r : Renderer) (held : ℕ) (calls : List Call)
    → IsHeld w held calls
    → IsHeld w
        (renderer_weight w (setup_render g (r, calls)).0 + held)
        (setup_render g (r, calls)).1
unfolding weight_created weight_destroyed setup_render setup_shaders setup_quad_vertex_data
setup_render-IsHeld w g r held calls h = omega (arith, h)

pub reset-IsHeld :
    (w : Weight) (r : Renderer) (held : ℕ) (calls : List Call)
    → IsWeight w
    → IsHeld w (renderer_weight w r + held) calls
    → IsHeld w held (reset (r, calls)).1
unfolding reset
reset-IsHeld w r held calls z h = destroyed-IsHeld w buffer r.quad_vbo held _ z (
    destroyed-IsHeld w vertex_array r.quad_vao (w buffer r.quad_vbo + held) _ z (
      destroyed-IsHeld w Resource.program r.program
        (w vertex_array r.quad_vao + (w buffer r.quad_vbo + held)) calls z (omega (arith, h))))

pub draw-IsHeld :
    (w : Weight) (texture target held : ℕ) (r : Renderer) (calls : List Call)
    → IsHeld w held calls
    → IsHeld w held (draw texture target r calls)
unfolding draw weight_created weight_destroyed
draw-IsHeld w texture target held r calls h = h

pub reset_swapchain-IsHeld :
    (w : Weight) (s : GlSwapchain) (held : ℕ) (calls : List Call)
    → IsHeld w (swapchain_weight w s + held) calls
    → IsHeld w held (reset_swapchain s calls).1
unfolding reset_swapchain delete_framebuffers weight_of log_destroyed
reset_swapchain-IsHeld w s held calls h = pick s.framebuffers h
  where
    pick :
        (fs : List ℕ)
        → IsHeld w (weight_of w framebuffer fs + held) calls
        → IsHeld w held (delete_framebuffers s fs calls).1
    pick [] i = omega (arith, i)
    pick (f ∷ fs) i = log_destroyed-IsHeld w framebuffer (f ∷ fs) held calls i

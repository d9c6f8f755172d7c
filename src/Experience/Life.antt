-- ===== src/Experience/Life.antt =====
-- client/src/em/em_remote_experience.cpp: how the remote experience is created and destroyed.
use electric_maple.Common.{ℕ, Bool, true, Option, none, some, List, [], ◌∷◌, if◌then◌else◌}
use electric_maple.Stream.{StreamClient, em_stream_client_stop}
use electric_maple.Stream.Pull.{EmSample}
use electric_maple.Render.{
  Resource, Call, created, space, Renderer, GlNames, new_renderer, setup_render, reset,
  destroy_named, GlSwapchain, no_framebuffers, SwapchainEnv, Enumerated, reset_swapchain,
  enumerate_and_generate_framebuffers,
}
use electric_maple.Experience.Run.{Op, World, run, start}
use electric_maple.Experience.{EmRemoteExperience, log, release_sample}

-- What the calls of the creation answer: a failure is false or `none`. An exception comes before any object
-- of the renderer exists, since OpenGL's functions throw none.
pub record NewEnv : Type 0 where
  pub convert_function : Bool
  pub swapchain : Option ℕ
  pub framebuffers : SwapchainEnv
  pub throws : Bool
  pub gl : GlNames
  pub world_space : Option ℕ
  pub view_space : Option ℕ

-- The zeroed memory with the arguments.
unfoldable pub calloc_experience : StreamClient → ℕ → ℕ → EmRemoteExperience
calloc_experience sc width height = record {
  stream_client = sc;
  renderer = none;
  prev_sample = none;
  eye_width = width;
  eye_height = height;
  world_space = 0;
  view_space = 0;
  swapchain = 0;
  swapchain_buffers = no_framebuffers;
  next_up_message = 0;
  calls = [];
  objects = [];
}

unfoldable pub drop_renderer : Option Renderer → EmRemoteExperience → EmRemoteExperience
drop_renderer none x = x
drop_renderer (some r) x = record x { renderer = none; objects = (reset (r, x.objects)).1 }

unfoldable pub drop_prev_sample : Option EmSample → EmRemoteExperience → EmRemoteExperience
drop_prev_sample none x = x
drop_prev_sample (some p) x = record (log (release_sample p) x) { prev_sample = none }

abbrev with_buffers : EmRemoteExperience → GlSwapchain × List Call → EmRemoteExperience
with_buffers x (s, calls) = record x { swapchain_buffers = s; objects = calls }

abbrev pub drop_buffers : EmRemoteExperience → EmRemoteExperience
drop_buffers x = with_buffers x (reset_swapchain x.swapchain_buffers x.objects)

abbrev pub stopped : EmRemoteExperience → EmRemoteExperience
stopped x = record x { stream_client = (em_stream_client_stop true x.stream_client).client }

-- With a stream client, which every experience has.
unfoldable pub em_remote_experience_dispose : EmRemoteExperience → EmRemoteExperience
em_remote_experience_dispose x =
    let without_renderer = drop_renderer x.renderer (stopped x) in
    drop_buffers (drop_prev_sample x.prev_sample without_renderer)

unfoldable pub em_remote_experience_finalize : EmRemoteExperience → EmRemoteExperience
em_remote_experience_finalize x = record x {
  swapchain = 0;
  view_space = 0;
  world_space = 0;
  objects =
      destroy_named space x.world_space
        (destroy_named space x.view_space (destroy_named Resource.swapchain x.swapchain x.objects));
}

-- The state when the memory is freed.
unfoldable pub em_remote_experience_destroy : EmRemoteExperience → EmRemoteExperience
em_remote_experience_destroy x = em_remote_experience_finalize (em_remote_experience_dispose x)

-- The creation returns the experience, or destroys what there is of it and returns null.
pub data New : Type 0 where
  made : EmRemoteExperience → New
  failed : EmRemoteExperience → New

abbrev give_up : EmRemoteExperience → New
give_up x = failed (em_remote_experience_destroy x)

unfoldable pub create_view_space : Option ℕ → EmRemoteExperience → New
create_view_space none x = give_up x
create_view_space (some v) x =
    made (record x { view_space = v; objects = created space v ∷ x.objects })

unfoldable pub create_world_space : Option ℕ → Option ℕ → EmRemoteExperience → New
create_world_space none view x = give_up x
create_world_space (some v) view x =
    create_view_space view (record x { world_space = v; objects = created space v ∷ x.objects })

abbrev pub with_renderer : EmRemoteExperience → Renderer × List Call → EmRemoteExperience
with_renderer x (r, calls) = record x { renderer = some r; objects = calls }

unfoldable pub set_up_renderer : NewEnv → EmRemoteExperience → New
set_up_renderer e x =
    if e.throws
    then give_up (with_renderer x (reset (new_renderer, x.objects)))
    else create_world_space e.world_space e.view_space
        (with_renderer x (setup_render e.gl (new_renderer, x.objects)))

abbrev pub with_enumerated : EmRemoteExperience → Enumerated → EmRemoteExperience
with_enumerated x r = record x { swapchain_buffers = r.swapchain; objects = r.calls }

-- `none` is a failed assertion.
unfoldable pub use_enumerated : NewEnv → Option Enumerated → EmRemoteExperience → Option New
use_enumerated e none x = none
use_enumerated e (some r) x =
    some
      (if r.result then set_up_renderer e (with_enumerated x r) else give_up (with_enumerated x r))

unfoldable pub create_swapchain : NewEnv → Option ℕ → EmRemoteExperience → Option New
create_swapchain e none x = some (give_up x)
create_swapchain e (some s) x =
    let with_swapchain = record x {
      swapchain = s;
      objects = created Resource.swapchain s ∷ x.objects;
    } in
    use_enumerated e
      (enumerate_and_generate_framebuffers e.framebuffers with_swapchain.swapchain_buffers
        with_swapchain.objects)
      with_swapchain

unfoldable pub em_remote_experience_new : NewEnv → StreamClient → ℕ → ℕ → Option New
em_remote_experience_new e sc width height =
    let x = calloc_experience sc width height in
    if e.convert_function then create_swapchain e e.swapchain x else some (give_up x)

abbrev pub destroyed_after : Option World → Option (List Call)
destroyed_after none = none
destroyed_after (some w) = some (em_remote_experience_destroy w.experience).objects

-- The calls for the objects of a remote experience that is created, renders, and is destroyed.
unfoldable pub lifetime_of : List Op → Option New → Option (List Call)
lifetime_of os none = none
lifetime_of os (some (failed x)) = some x.objects
lifetime_of os (some (made x)) = destroyed_after (run os (start x))

unfoldable pub lifetime : NewEnv → StreamClient → ℕ → ℕ → List Op → Option (List Call)
lifetime e sc width height os = lifetime_of os (em_remote_experience_new e sc width height)

-- ===== src/Compositor/Creation.antt =====
-- server/src/ems/ems_compositor.cpp: the creation and the destruction of the compositor, and the functions of
-- the session that only answer.
pub mod Parts
use electric_maple.Common.{
  ℕ, Bool, true, false, Option, none, some, List, [], ◌∷◌, ◌==◌, if◌then◌else◌,
}
use electric_maple.Common.Int.{ℤ}
use electric_maple.Config.{DeviceConfig}
use electric_maple.Compositor.System.{SystemInfo, compositor_init_sys_info}

-- What the creation makes and the destruction destroys.
pub data Part : Type 0 where
  base pacing string_list instance_handle device vk_mutex cmd_pool shared_swapchains : Part
  readback_pool pipeline source bounce_image bounce_memory pacing_factory : Part

-- What the calls answer. Of Vulkan's bundle: whether it is complete, and which handles and whether the mutex
-- are there after the call. `blend_modes` are those of the head, `rate` is the parameter of the system info.
pub record CreateEnv : Type 0 where
  pub pacing_ok : Bool
  pub bundle_ok : Bool
  pub has_instance : Bool
  pub has_device : Bool
  pub has_mutex : Bool
  pub cmd_pool_ok : Bool
  pub shared_ok : Bool
  pub config : DeviceConfig
  pub blend_modes : List ℕ
  pub rate : ℕ → ℕ
  pub interval : ℕ
  pub image_ok : Bool
  pub factory_ok : Bool
  pub system_ok : Bool

-- The compositor's handles, and what was made and destroyed so far, the newest first.
pub record Creation : Type 0 where
  pub instance_set : Bool
  pub device_set : Bool
  pub image_set : Bool
  pub sys_info : Option SystemInfo
  pub made : List Part
  pub destroyed : List Part

abbrev pub make : Part → Creation → Creation
make p c = record c { made = p ∷ c.made }

abbrev pub destroy : Part → Creation → Creation
destroy p c = record c { destroyed = p ∷ c.destroyed }

abbrev pub make_if : Bool → Part → Creation → Creation
make_if b p c = if b then make p c else c

abbrev pub destroy_if : Bool → Part → Creation → Creation
destroy_if b p c = if b then destroy p c else c

unfoldable pub compositor_init_pacing : CreateEnv → Creation → Bool × Creation
compositor_init_pacing e c = if e.pacing_ok then (true, make pacing c) else (false, c)

-- `VK_SUCCESS`; the function only appends to the optional extensions.
unfoldable pub select_instances_extensions : ℕ
select_instances_extensions = 0

unfoldable pub init_shared : CreateEnv → Creation → Bool × Creation
init_shared e c = if e.shared_ok then (true, make shared_swapchains c) else (false, c)

unfoldable pub init_cmd_pool : CreateEnv → Creation → Bool × Creation
init_cmd_pool e c = if e.cmd_pool_ok then init_shared e (make cmd_pool c) else (false, c)

-- The handles and the mutex that the bundle has after the call.
abbrev pub bundle_parts : CreateEnv → Creation → Creation
bundle_parts e c =
    let handles =
      make_if e.has_mutex vk_mutex
        (make_if e.has_device device (make_if e.has_instance instance_handle c)) in
    record handles { instance_set = e.has_instance; device_set = e.has_device }

unfoldable pub init_bundle : CreateEnv → Creation → Bool × Creation
init_bundle e c =
    if e.bundle_ok then init_cmd_pool e (bundle_parts e c) else (false, bundle_parts e c)

abbrev pub lists_made : Creation → Creation
lists_made c = make string_list (make string_list c)

abbrev pub lists_destroyed : Creation → Creation
lists_destroyed c = destroy string_list (destroy string_list c)

-- The four lists of extensions are gone whatever becomes of the bundle. The result of a failed selection, which is not 0,
-- is true as a bool.
unfoldable pub compositor_init_vulkan : CreateEnv → Creation → Bool × Creation
compositor_init_vulkan e c =
    if select_instances_extensions == 0
    then init_bundle e (lists_destroyed (lists_destroyed (lists_made (lists_made c))))
    else (true, lists_destroyed (lists_made c))

unfoldable pub compositor_init_info : Creation → Bool × Creation
compositor_init_info c = (true, c)

unfoldable pub ems_compositor_destroy : Creation → Creation
ems_compositor_destroy c =
    let pools = destroy cmd_pool (destroy readback_pool (destroy shared_swapchains c)) in
    let bounce = destroy_if c.image_set bounce_memory (destroy_if c.image_set bounce_image pools) in
    let no_device = destroy vk_mutex (destroy_if c.device_set device bounce) in
    let no_instance = destroy_if c.instance_set instance_handle no_device in
    record (destroy pacing (destroy base no_instance)) {
      instance_set = false;
      device_set = false;
      image_set = false;
    }

-- `XRT_ERROR_VULKAN` after the destruction, the result of the system compositor, or a failed assertion.
pub data Created : Type 0 where
  error_vulkan : Creation → Created
  answers : Bool → Creation → Created
  aborted : Created

abbrev pub with_info : Option SystemInfo → Creation → Option (Bool × Creation)
with_info none c = none
with_info (some info) c = some (compositor_init_info (record c { sys_info = some info }))

unfoldable pub init_system : CreateEnv → Creation → Option (Bool × Creation)
init_system e c = with_info (compositor_init_sys_info e.rate e.config e.blend_modes e.interval) c

-- The rest of the creation once the main sequence has succeeded.
unfoldable pub finish_creation : CreateEnv → Creation → Created
finish_creation e c =
    let streaming = make source (make pipeline (make readback_pool c)) in
    let bounced = make_if e.image_ok bounce_memory (make_if e.image_ok bounce_image streaming) in
    if e.factory_ok
    then answers e.system_ok (make pacing_factory (record bounced { image_set = e.image_ok }))
    else aborted

abbrev pub new_creation : Creation
new_creation = record {
  instance_set = false;
  device_set = false;
  image_set = false;
  sys_info = none;
  made = base ∷ [];
  destroyed = [];
}

abbrev pub or_destroy : (Creation → Created) → Bool × Creation → Created
or_destroy f (true, c) = f c
or_destroy f (false, c) = error_vulkan (ems_compositor_destroy c)

abbrev pub or_abort : (Bool × Creation → Created) → Option (Bool × Creation) → Created
or_abort f none = aborted
or_abort f (some r) = f r

unfoldable pub ems_compositor_create_system : CreateEnv → Created
ems_compositor_create_system e =
    or_destroy
      (λ paced.
        or_destroy (λ c. or_abort (or_destroy (finish_creation e)) (init_system e c))
          (compositor_init_vulkan e paced))
      (compositor_init_pacing e new_creation)

-- The session begins, ends and asks for another refresh rate without an effect, a frame begins likewise, and
-- a frame that is discarded fails an assertion.
pub data SessionCall : Type 0 where
  begin_session end_session request_display_refresh_rate : SessionCall
  begin_frame discard_frame : ℤ → SessionCall

unfoldable pub session_call_succeeds : SessionCall → Option Bool
session_call_succeeds (discard_frame id) = none
session_call_succeeds _ = some true

-- What the pacing helper predicts at a time; the compositor hands on the id, the time to wake up, and the
-- display's time and period.
pub record Prediction : Type 0 where
  pub frame_id : ℤ
  pub wake_time_ns : ℤ
  pub desired_present_time_ns : ℤ
  pub present_slop_ns : ℤ
  pub predicted_display_time_ns : ℤ
  pub predicted_display_period_ns : ℤ
  pub min_display_period_ns : ℤ

unfoldable pub ems_compositor_predict_frame : (ℤ → Prediction) → ℤ → ℤ × ℤ × ℤ × ℤ
ems_compositor_predict_frame predict now_ns =
    let p = predict now_ns in
    (p.frame_id, p.wake_time_ns, p.predicted_display_time_ns, p.predicted_display_period_ns)

-- The bits that the swapchain has besides, of which TRANSFER_SRC becomes one, or the error.
unfoldable pub ems_compositor_get_swapchain_create_properties :
    Option (ℕ → Bool) → ℕ → Option (ℕ → Bool)
ems_compositor_get_swapchain_create_properties none transfer_src = none
ems_compositor_get_swapchain_create_properties (some extra_bits) transfer_src =
    some (λ b. if b == transfer_src then true else extra_bits b)

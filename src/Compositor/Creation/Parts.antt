-- ===== src/Compositor/Creation/Parts.antt =====
-- server/src/ems/ems_compositor.cpp: what the creation of the compositor makes, and what its destruction
-- destroys.
use electric_maple.Common.{
  ℕ, ◌+◌, ◌≡◌, Bool, true, false, not, ◌&&◌, sym, Option, none, some, List, [], ◌∷◌, arith,
  if◌then◌else◌, if-elim, Bool-cases, inl, inr, subst,
}
use electric_maple.Compositor.Creation.{
  Part, base, pacing, string_list, instance_handle, device, vk_mutex, cmd_pool, shared_swapchains,
  readback_pool, pipeline, source, bounce_image, bounce_memory, pacing_factory, CreateEnv, Creation,
  Created, error_vulkan, answers, aborted, make, new_creation, compositor_init_pacing,
  compositor_init_vulkan, init_bundle, init_cmd_pool, init_shared, select_instances_extensions,
  init_system, finish_creation, ems_compositor_destroy, ems_compositor_create_system, or_destroy,
  or_abort, compositor_init_info, with_info, bundle_parts,
}
use electric_maple.Compositor.System.{SystemInfo}

-- The sum of a weight over parts.
abbrev pub tally : (Part → ℕ) → List Part → ℕ
tally w [] = 0
tally w (p ∷ ps) = w p + tally w ps

abbrev pub when : Bool → ℕ → ℕ
when b n = if b then n else 0

-- The parts that the destruction destroys in any case, and those that it destroys because they are there.
abbrev pub always : (Part → ℕ) → ℕ
always w = w base + w pacing + w shared_swapchains + w readback_pool + w cmd_pool + w vk_mutex

abbrev pub present : (Part → ℕ) → Creation → ℕ
present w c =
    when c.image_set (w bounce_image + w bounce_memory)
    + when c.device_set (w device)
    + when c.instance_set (w instance_handle)

destroy-tally :
    (w : Part → ℕ) (c : Creation)
    → tally w (ems_compositor_destroy c).destroyed ≡ tally w c.destroyed + (always w + present w c)
unfolding ems_compositor_destroy
destroy-tally w c = ground arith

-- The parts that a failed creation destroys and has not made.
abbrev pub missing : (Part → ℕ) → CreateEnv → ℕ
missing w e =
    w readback_pool
    + w shared_swapchains
    + when (not (e.pacing_ok && (e.bundle_ok && e.cmd_pool_ok))) (w cmd_pool)
    + when (not (e.pacing_ok && e.has_mutex)) (w vk_mutex)
    + when (not e.pacing_ok) (w pacing)

-- The parts that a compositor that was created keeps beyond its destruction.
abbrev pub kept : (Part → ℕ) → ℕ
kept w = w pipeline + w source + w pacing_factory

-- The account of a creation: of a failed one, and of one whose compositor is destroyed later.
abbrev pub IsSettled : (Part → ℕ) → CreateEnv → Created → Type 0
IsSettled w e (error_vulkan d) = tally w d.made + missing w e ≡ tally w d.destroyed
IsSettled w e (answers ok c) =
    let d = ems_compositor_destroy c in tally w d.made ≡ tally w d.destroyed + kept w
IsSettled w e aborted = Unit

-- A complete bundle has its handles and its mutex.
abbrev pub IsComplete : CreateEnv → Type 0
IsComplete e =
    e.bundle_ok ≡ true → (e.has_instance ≡ true) × (e.has_device ≡ true) × (e.has_mutex ≡ true)

made-destroy : (c : Creation) → (ems_compositor_destroy c).made ≡ c.made
unfolding ems_compositor_destroy
made-destroy c = ground arith

failed-IsSettled :
    (w : Part → ℕ) (e : CreateEnv) (c : Creation)
    → tally w c.made + missing w e ≡ tally w c.destroyed + (always w + present w c)
    → IsSettled w e (error_vulkan (ems_compositor_destroy c))
failed-IsSettled w e c v = rw (made-destroy c, destroy-tally w c) v

created-IsSettled :
    (w : Part → ℕ) (e : CreateEnv) (ok : Bool) (c : Creation)
    → tally w c.made ≡ tally w c.destroyed + (always w + present w c) + kept w
    → IsSettled w e (answers ok c)
created-IsSettled w e ok c v = rw (made-destroy c, destroy-tally w c) v

unpaced-IsSettled :
    (w : Part → ℕ) (e : CreateEnv)
    → e.pacing_ok ≡ false
    → IsSettled w e (error_vulkan (ems_compositor_destroy new_creation))
unpaced-IsSettled w e p = failed-IsSettled w e new_creation (ground arith)

-- The creation after its pacing, and after the lists.
abbrev listed : Creation
listed =
    let c = make pacing new_creation in
    let four = string_list ∷ string_list ∷ string_list ∷ string_list ∷ [] in
    record c {
      made = string_list ∷ string_list ∷ string_list ∷ string_list ∷ pacing ∷ base ∷ [];
      destroyed = four;
    }

-- The creation after the bundle.
abbrev bundled : CreateEnv → Creation
bundled e = bundle_parts e listed

unbundled-IsSettled :
    (w : Part → ℕ) (e : CreateEnv)
    → e.pacing_ok ≡ true
    → e.bundle_ok ≡ false
    → IsSettled w e (error_vulkan (ems_compositor_destroy (bundled e)))
unbundled-IsSettled w e p b = failed-IsSettled w e (bundled e) (ground arith)

unpooled-IsSettled :
    (w : Part → ℕ) (e : CreateEnv)
    → e.pacing_ok ≡ true
    → e.bundle_ok ≡ true
    → e.cmd_pool_ok ≡ false
    → IsSettled w e (error_vulkan (ems_compositor_destroy (bundled e)))
unpooled-IsSettled w e p b q = failed-IsSettled w e (bundled e) (ground arith)

unshared-IsSettled :
    (w : Part → ℕ) (e : CreateEnv)
    → e.pacing_ok ≡ true
    → e.bundle_ok ≡ true
    → e.cmd_pool_ok ≡ true
    → IsSettled w e (error_vulkan (ems_compositor_destroy (make cmd_pool (bundled e))))
unshared-IsSettled w e p b q = failed-IsSettled w e (make cmd_pool (bundled e)) (ground arith)

finish-IsSettled :
    (w : Part → ℕ) (e : CreateEnv) (c : Creation)
    → c.device_set ≡ true
    → c.instance_set ≡ true
    → tally w c.made + w readback_pool
      ≡ tally w c.destroyed + (always w + (w device + w instance_handle))
    → IsSettled w e (finish_creation e c)
unfolding finish_creation
finish-IsSettled w e c d i v =
    if-elim (IsSettled w e) e.factory_ok (created-IsSettled w e e.system_ok _ (ground arith)) tt

info-IsSettled :
    (w : Part → ℕ) (e : CreateEnv) (info : Option SystemInfo) (c : Creation)
    → c.device_set ≡ true
    → c.instance_set ≡ true
    → tally w c.made + w readback_pool
      ≡ tally w c.destroyed + (always w + (w device + w instance_handle))
    → IsSettled w e (or_abort (or_destroy (finish_creation e)) (with_info info c))
unfolding compositor_init_info
info-IsSettled w e none c d i v = tt
info-IsSettled w e (some info) c d i v =
    finish-IsSettled w e (record c { sys_info = some info }) d i v

-- The rest of the creation, from a creation that has everything that the main sequence makes.
finished-IsSettled :
    (w : Part → ℕ) (e : CreateEnv)
    → IsComplete e
    → e.bundle_ok ≡ true
    → IsSettled w e (
        or_abort
          (or_destroy (finish_creation e))
          (init_system e (make shared_swapchains (make cmd_pool (bundled e)))))
unfolding init_system
finished-IsSettled w e complete b =
    let (i, d, m) = complete b in
    info-IsSettled w e _ (make shared_swapchains (make cmd_pool (bundled e))) (ground arith)
      (ground arith) (ground arith)

module _ (e : CreateEnv) where
  unpaced :
      e.pacing_ok ≡ false
      → ems_compositor_create_system e ≡ error_vulkan (ems_compositor_destroy new_creation)
  unfolding ems_compositor_create_system compositor_init_pacing
  unpaced p = ground arith

  unbundled :
      e.pacing_ok ≡ true
      → e.bundle_ok ≡ false
      → ems_compositor_create_system e ≡ error_vulkan (ems_compositor_destroy (bundled e))
  unfolding ems_compositor_create_system compositor_init_pacing compositor_init_vulkan
      select_instances_extensions init_bundle
  unbundled p b = ground arith

  unpooled :
      e.pacing_ok ≡ true
      → e.bundle_ok ≡ true
      → e.cmd_pool_ok ≡ false
      → ems_compositor_create_system e ≡ error_vulkan (ems_compositor_destroy (bundled e))
  unfolding ems_compositor_create_system compositor_init_pacing compositor_init_vulkan
      select_instances_extensions init_bundle init_cmd_pool
  unpooled p b q = ground arith

  unshared :
      e.pacing_ok ≡ true
      → e.bundle_ok ≡ true
      → e.cmd_pool_ok ≡ true
      → e.shared_ok ≡ false
      → ems_compositor_create_system e
        ≡ error_vulkan (ems_compositor_destroy (make cmd_pool (bundled e)))
  unfolding ems_compositor_create_system compositor_init_pacing compositor_init_vulkan
      select_instances_extensions init_bundle init_cmd_pool init_shared
  unshared p b q r = ground arith

  complete_main :
      e.pacing_ok ≡ true
      → e.bundle_ok ≡ true
      → e.cmd_pool_ok ≡ true
      → e.shared_ok ≡ true
      → ems_compositor_create_system e
        ≡ or_abort
            (or_destroy (finish_creation e))
            (init_system e (make shared_swapchains (make cmd_pool (bundled e))))
  unfolding ems_compositor_create_system compositor_init_pacing compositor_init_vulkan
      select_instances_extensions init_bundle init_cmd_pool init_shared
  complete_main p b q r = ground arith

by-IsSettled :
    (w : Part → ℕ) (e : CreateEnv) {r s : Created} → r ≡ s → IsSettled w e s → IsSettled w e r
by-IsSettled w e q v = subst (λ r. IsSettled w e r) (sym q) v

-- Whether the creation of the compositor fails, at whatever step, or succeeds and the compositor is destroyed
-- later, when a complete bundle of Vulkan has its handles and its mutex: a failed creation has destroyed everything that
-- it made, and besides the readback pool, the shared swapchain resources, and those of the command pool, the mutex
-- and the pacing that were never made; and a compositor that is created and destroyed leaves the GStreamer
-- pipeline, its source and the pacing factory. All are summed by any weight of the parts.
pub creation-IsSettled :
    (w : Part → ℕ) (e : CreateEnv) → IsComplete e → IsSettled w e (ems_compositor_create_system e)
creation-IsSettled w e complete = elim (Bool-cases e.pacing_ok) [
  | inr p ↦ by-IsSettled w e (unpaced e p) (unpaced-IsSettled w e p)
  | inl p ↦ elim (Bool-cases e.bundle_ok) [
    | inr b ↦ by-IsSettled w e (unbundled e p b) (unbundled-IsSettled w e p b)
    | inl b ↦ elim (Bool-cases e.cmd_pool_ok) [
      | inr q ↦ by-IsSettled w e (unpooled e p b q) (unpooled-IsSettled w e p b q)
      | inl q ↦ elim (Bool-cases e.shared_ok) [
        | inr r ↦ by-IsSettled w e (unshared e p b q r) (unshared-IsSettled w e p b q)
        | inl r ↦ by-IsSettled w e (complete_main e p b q r) (finished-IsSettled w e complete b)
      ]
    ]
  ]
]

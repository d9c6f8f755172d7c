-- ===== src/Render/Framebuffers.antt =====
-- client/src/em/render/gl_swapchain.cpp: the framebuffers of the swapchain are all there or none of them.
use electric_maple.Render.Objects.{
  Weight, IsHeld, weight_created, weight_destroyed, weight_of, swapchain_weight, log_created-IsHeld,
  log_destroyed-IsHeld,
}
use electric_maple.Common.{
  ℕ, ◌+◌, ◌≡◌, refl, ap, Bool, true, false, Option, none, some, List, [], ◌∷◌, if◌then◌else◌,
  length, arith, suc, if-elim, All, ◌⊎◌, inl, inr,
}
use electric_maple.Render.{
  Call, no_framebuffers, SwapchainEnv, gen_framebuffers, associate, delete_framebuffers,
  reset_swapchain, cleaned_up, check_success, generate, fetch_images, count_images,
  enumerate_and_generate_framebuffers, Enumerated, bind_framebuffer, attach_texture, framebuffer,
}

associate-IsHeld :
    (w : Weight) (ok : ℕ → Bool) (fs images : List ℕ) (held : ℕ) (calls : List Call)
    → IsHeld w held calls
    → IsHeld w held (associate ok fs images calls).1
unfolding associate weight_created weight_destroyed
associate-IsHeld w ok [] images held calls h = h
associate-IsHeld w ok (f ∷ fs) [] held calls h = h
associate-IsHeld w ok (f ∷ fs) (i ∷ images) held calls h =
    let next = attach_texture f i ∷ bind_framebuffer f ∷ calls in
    if-elim (λ (p : Bool × List Call). IsHeld w held p.1) (ok f)
      (associate-IsHeld w ok fs images held next h) h

length-gen_framebuffers :
    (name : ℕ → ℕ) (i : ℕ) (images : List ℕ)
    → length images ≡ length (gen_framebuffers name i images)
unfolding gen_framebuffers
length-gen_framebuffers name i [] = refl
length-gen_framebuffers name i (_ ∷ images) = ap suc (length-gen_framebuffers name (suc i) images)

-- When the loop over the framebuffers succeeds, all of them are complete.
abbrev AllIfTrue : (ℕ → Bool) → List ℕ → Bool → Type 0
AllIfTrue ok fs b = b ≡ true → All (λ f. ok f ≡ true) fs

associate-AllIfTrue :
    (ok : ℕ → Bool) (name : ℕ → ℕ) (i : ℕ) (images : List ℕ) (calls : List Call)
    → let fs = gen_framebuffers name i images in AllIfTrue ok fs (associate ok fs images calls).0
unfolding associate gen_framebuffers
associate-AllIfTrue ok name i [] calls e = tt
associate-AllIfTrue ok name i (t ∷ images) calls e =
    step (ok (name i)) refl (associate-AllIfTrue ok name (suc i) images next) e
  where
    next : List Call
    next = attach_texture (name i) t ∷ bind_framebuffer (name i) ∷ calls

    step :
        (b : Bool)
        → ok (name i) ≡ b
        → AllIfTrue ok
            (gen_framebuffers name (suc i) images)
            (associate ok (gen_framebuffers name (suc i) images) images next).0
        → AllIfTrue ok
            (name i ∷ gen_framebuffers name (suc i) images)
            (if b
              then associate ok (gen_framebuffers name (suc i) images) images next
              else (false, next)).0
    step true o rest r = (o, rest r)
    step false o rest r = cc

-- Either it fails and there is nothing, or there is a complete framebuffer for each image; `held` is what
-- there was besides.
abbrev pub IsAllOrNothing : Weight → (ℕ → Bool) → ℕ → Enumerated → Type 0
IsAllOrNothing w ok held e =
    ((e.result ≡ false) × (e.swapchain ≡ no_framebuffers) × IsHeld w held e.calls)
    ⊎ ((e.result ≡ true)
        × (length e.swapchain.images ≡ length e.swapchain.framebuffers)
        × All (λ f. ok f ≡ true) e.swapchain.framebuffers
        × IsHeld w (swapchain_weight w e.swapchain + held) e.calls)

check_success-IsAllOrNothing :
    (w : Weight) (ok : ℕ → Bool) (name : ℕ → ℕ) (images : List ℕ) (held : ℕ) (p : Bool × List Call)
    → AllIfTrue ok (gen_framebuffers name 0 images) p.0
    → IsHeld w (weight_of w framebuffer (gen_framebuffers name 0 images) + held) p.1
    → IsAllOrNothing w ok held (
        check_success (record { images = images; framebuffers = gen_framebuffers name 0 images }) p)
unfolding check_success cleaned_up weight_created weight_destroyed reset_swapchain
    delete_framebuffers gen_framebuffers no_framebuffers weight_of
check_success-IsAllOrNothing w ok name images held (true, calls) all h =
    inr (refl, length-gen_framebuffers name 0 images, all refl, h)
check_success-IsAllOrNothing w ok name [] held (false, calls) all h =
    inl (refl, refl, omega (arith, h))
check_success-IsAllOrNothing w ok name (t ∷ images) held (false, calls) all h = inl (
  refl,
  refl,
  log_destroyed-IsHeld w framebuffer (gen_framebuffers name 0 (t ∷ images)) held
      (bind_framebuffer 0 ∷ calls) h,
)

generate-IsAllOrNothing :
    (w : Weight) (e : SwapchainEnv) (images : List ℕ) (held : ℕ) (calls : List Call)
    → IsHeld w held calls
    → IsAllOrNothing w e.is_complete held (generate e images calls)
unfolding generate
generate-IsAllOrNothing w e images held calls h =
    let names = gen_framebuffers e.framebuffer_name 0 images in
    check_success-IsAllOrNothing w e.is_complete e.framebuffer_name images held _
      (associate-AllIfTrue e.is_complete e.framebuffer_name 0 images _)
      (associate-IsHeld w e.is_complete names images _ _
        (log_created-IsHeld w framebuffer names held calls h))

pub count_images-IsAllOrNothing :
    (w : Weight) (e : SwapchainEnv) (held : ℕ) (calls : List Call)
    → IsHeld w held calls
    → IsAllOrNothing w e.is_complete held (count_images e e.count e.images calls)
unfolding count_images fetch_images
count_images-IsAllOrNothing w e held calls h = count e.count e.images
  where
    count :
        (o : Option ℕ) (images : Option (List ℕ))
        → IsAllOrNothing w e.is_complete held (count_images e o images calls)
    count none images = inl (refl, refl, h)
    count (some n) none = inl (refl, refl, h)
    count (some n) (some images) = generate-IsAllOrNothing w e images held calls h

-- From a swapchain without images, the enumeration returns; either it fails, and then there are no images
-- and no framebuffers and those that were generated were deleted, or there is a framebuffer for each image
-- and all of them are complete. The objects created are, summed by any weight, those destroyed with the
-- swapchain's framebuffers and the objects that were held before.
pub framebuffers-IsAllOrNothing :
    (w : Weight) (e : SwapchainEnv) (held : ℕ) (calls : List Call)
    → IsHeld w held calls
    → (r : Enumerated) × (enumerate_and_generate_framebuffers e no_framebuffers calls ≡ some r)
      × IsAllOrNothing w e.is_complete held r
unfolding enumerate_and_generate_framebuffers no_framebuffers
framebuffers-IsAllOrNothing w e held calls h =
    (_, refl, count_images-IsAllOrNothing w e held calls h)

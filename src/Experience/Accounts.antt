-- ===== src/Experience/Accounts.antt =====
-- client/src/em/em_remote_experience.cpp: accounts of the calls, the messages, the samples and the objects.
use electric_maple.Common.{
  ℕ, zero, suc, ◌+◌, ◌%◌, ◌^◌, ◌≡◌, Option, none, some, List, [], ◌∷◌, ◌++◌, length,
}
use electric_maple.Common.Int.{ℤ, i64}
use electric_maple.Stream.{Sample, unref}
use electric_maple.Stream.Pull.{EmSample, em_stream_client_release_sample}
use electric_maple.Stream.Samples.{count}
use electric_maple.Render.{Resource, space, Renderer}
use electric_maple.Render.Objects.{
  Weight, weight_created, weight_destroyed, renderer_weight, swapchain_weight,
}
use electric_maple.Experience.{
  XrCall, begin_frame, end_frame, acquire_image, release_image, release_sample, send_bytes,
  EmRemoteExperience,
}
use electric_maple.Experience.Frame.{Frame, finished, aborted}

-- The number of calls of a kind, which `w` gives the weight 1.
unfoldable pub tally : (XrCall → ℕ) → List XrCall → ℕ
tally w [] = 0
tally w (c ∷ calls) = w c + tally w calls

unfoldable pub is_begin : XrCall → ℕ
is_begin begin_frame = 1
is_begin _ = 0

unfoldable pub is_end : XrCall → ℕ
is_end (end_frame t layers) = 1
is_end _ = 0

unfoldable pub is_acquire : XrCall → ℕ
is_acquire acquire_image = 1
is_acquire _ = 0

unfoldable pub is_release : XrCall → ℕ
is_release release_image = 1
is_release _ = 0

-- The samples of the frames that were released, and the ids of the messages, the newest first.
unfoldable pub released : List XrCall → List Sample
released [] = []
released (release_sample r ∷ calls) = em_stream_client_release_sample r ++ released calls
released (_ ∷ calls) = released calls

unfoldable pub sent_ids : List XrCall → List ℤ
sent_ids [] = []
sent_ids (send_bytes m ∷ calls) = m.id ∷ sent_ids calls
sent_ids (_ ∷ calls) = sent_ids calls

-- The ids of `n` messages: the int64_t of n - 1, ..., 1, 0.
unfoldable pub ids_below : ℕ → List ℤ
ids_below zero = []
ids_below (suc n) = i64 (n % 2 ^ 64) ∷ ids_below n

abbrev pub held_sample : Option EmSample → List Sample
held_sample none = []
held_sample (some r) = r.sample ∷ []

-- What is fixed during a frame: a sample's number, how many samples of that number were handed over and
-- how many of them arrivals unref'd, a weight with the weights of the objects created and destroyed at
-- the start and of those in the fields, and the frames without an end.
pub record Fixed : Type 0 where
  pub number : ℕ
  pub handed : ℕ
  pub dropped : ℕ
  pub weight : Weight
  pub created : ℕ
  pub destroyed : ℕ
  pub held : ℕ
  pub open_frames : ℕ

abbrev pub IsPaired : ℕ → EmRemoteExperience → Type 0
IsPaired n x =
    (tally is_begin x.calls ≡ tally is_end x.calls + n)
    × (tally is_acquire x.calls ≡ tally is_release x.calls)

abbrev pub IsNumbered : EmRemoteExperience → Type 0
IsNumbered x =
    (sent_ids x.calls ≡ ids_below (length (sent_ids x.calls)))
    × (x.next_up_message ≡ length (sent_ids x.calls) % 2 ^ 64)

abbrev pub IsOwned : Fixed → EmRemoteExperience → Type 0
IsOwned f x =
    f.handed
    ≡ count f.number (unref x.stream_client.sample)
      + count f.number (held_sample x.prev_sample)
      + count f.number (released x.calls)
      + f.dropped

abbrev pub opt_renderer_weight : Weight → Option Renderer → ℕ
opt_renderer_weight w none = 0
opt_renderer_weight w (some r) = renderer_weight w r

-- The weight of what the fields name.
abbrev pub held_weight : Weight → EmRemoteExperience → ℕ
held_weight w x =
    opt_renderer_weight w x.renderer
    + swapchain_weight w x.swapchain_buffers
    + w Resource.swapchain x.swapchain
    + w space x.world_space
    + w space x.view_space

-- The fields name the same objects, and the weight of the objects that were created less that of those
-- destroyed does not change.
abbrev pub IsBalanced : Fixed → EmRemoteExperience → Type 0
IsBalanced f x =
    (held_weight f.weight x ≡ f.held)
    × (weight_created f.weight x.objects + f.destroyed
        ≡ weight_destroyed f.weight x.objects + f.created)

abbrev pub IsSound : Fixed → EmRemoteExperience → Type 0
IsSound f x = IsPaired f.open_frames x × IsNumbered x × IsOwned f x × IsBalanced f x

abbrev pub Keeps : (EmRemoteExperience → Type 0) → Frame → Type 0
Keeps P (finished r x) = P x
Keeps P aborted = Unit

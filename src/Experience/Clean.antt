-- ===== src/Experience/Clean.antt =====
-- client/src/em/em_remote_experience.cpp: what is created over the life of a remote experience is destroyed.
use electric_maple.Common.{ℕ, ◌≡◌, ◌+◌, Option, none, some, List, []}
use electric_maple.Stream.{StreamClient}
use electric_maple.Render.{Resource, Call, space}
use electric_maple.Render.Objects.{Weight, IsWeight, IsHeld}
use electric_maple.Experience.{EmRemoteExperience}
use electric_maple.Experience.Life.{New, made, failed}
use electric_maple.Experience.Accounts.{held_weight}
use electric_maple.Experience.Run.{IsFresh}

-- All that was created and not destroyed is in the fields.
abbrev IsTidy : Weight → EmRemoteExperience → Type 0
IsTidy w x = IsHeld w (held_weight w x) x.objects

abbrev handles : Weight → EmRemoteExperience → ℕ
handles w x = w Resource.swapchain x.swapchain + w space x.world_space + w space x.view_space

-- A creation that fails has destroyed all, one that succeeds has all in the fields and has done nothing yet.
abbrev IsDone : Weight → StreamClient → New → Type 0
IsDone w sc (made x) = IsTidy w x × (sc.sample ≡ none → IsFresh x)
IsDone w sc (failed x) = IsHeld w 0 x.objects

abbrev IsNew : StreamClient → EmRemoteExperience → Type 0
IsNew sc x =
    (x.calls ≡ []) × (x.next_up_message ≡ 0) × (x.prev_sample ≡ none) × (x.stream_client ≡ sc)

module _ (w : Weight) (z : IsWeight w) (sc : StreamClient) where
  abbrev IsDoneIf : Option New → Type 0
  IsDoneIf none = Unit
  IsDoneIf (some n) = IsDone w sc n

  abbrev IsHeldIf : Option (List Call) → Type 0
  IsHeldIf none = Unit
  IsHeldIf (some calls) = IsHeld w 0 calls

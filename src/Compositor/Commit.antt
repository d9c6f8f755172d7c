-- ===== src/Compositor/Commit.antt =====
-- server/src/ems/ems_compositor.cpp: a commit gives back what it takes, and its message reaches the client.
use electric_maple.Common.{ℕ, ◌+◌, ◌≡◌, ◌⊎◌, true, false, Option, some, List, [], ◌∷◌}
use electric_maple.Source.{Source, Push, aborted, dropped, pushed}
use electric_maple.Compositor.{
  CompositorCall, get_frame, unref_frame, play_pipeline, push_frame, Compositor,
}

-- Sums over the calls: of the frames taken from the pool and given back, by a weight of the frames, and
-- of the locks less the unlocks, the starts of the pipeline and the pushes.
unfoldable pub weight_got : (ℕ → ℕ) → List CompositorCall → ℕ
weight_got w [] = 0
weight_got w (get_frame f ∷ calls) = w f + weight_got w calls
weight_got w (_ ∷ calls) = weight_got w calls

unfoldable pub weight_returned : (ℕ → ℕ) → List CompositorCall → ℕ
weight_returned w [] = 0
weight_returned w (unref_frame f ∷ calls) = w f + weight_returned w calls
weight_returned w (_ ∷ calls) = weight_returned w calls

unfoldable pub plays : List CompositorCall → ℕ
plays [] = 0
plays (play_pipeline ∷ calls) = 1 + plays calls
plays (_ ∷ calls) = plays calls

unfoldable pub pushes : List CompositorCall → ℕ
pushes [] = 0
pushes (push_frame f m ∷ calls) = 1 + pushes calls
pushes (_ ∷ calls) = pushes calls

-- The pipeline was started once if it plays, and never otherwise, and then nothing was pushed.
abbrev pub IsPlayedOnce : Compositor → Type 0
IsPlayedOnce c =
    ((c.pipeline_playing ≡ true) × (plays c.calls ≡ 1))
    ⊎ ((c.pipeline_playing ≡ false) × (plays c.calls ≡ 0) × (pushes c.calls ≡ 0))

-- Between two commits: the pool of commands is free, every frame was given back, and the pipeline was
-- started once if at all.
abbrev pub IsIdle : (ℕ → ℕ) → Compositor → Type 0
IsIdle w c =
    (c.cmd_pool_locked ≡ false)
    × (weight_got w c.calls ≡ weight_returned w c.calls)
    × IsPlayedOnce c

abbrev pub Returns : (Compositor → Type 0) → Option Compositor → Type 0
Returns P o = (c : Compositor) × (o ≡ some c) × P c

-- During a layer one frame is taken and not given back.
abbrev IsBusy : (ℕ → ℕ) → ℕ → Compositor → Type 0
IsBusy w f c = (weight_got w c.calls ≡ weight_returned w c.calls + w f) × IsPlayedOnce c

-- And it plays and the pool of commands is free.
abbrev IsPlaying : (ℕ → ℕ) → ℕ → Compositor → Type 0
IsPlaying w f c =
    (c.cmd_pool_locked ≡ false)
    × (weight_got w c.calls ≡ weight_returned w c.calls + w f)
    × (c.pipeline_playing ≡ true)
    × (plays c.calls ≡ 1)

abbrev NotAborted : Push → Type 0
NotAborted aborted = ⊥
NotAborted (dropped gs) = Unit
NotAborted (pushed gs b) = Unit

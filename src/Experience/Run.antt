-- ===== src/Experience/Run.antt =====
-- client/src/em/em_remote_experience.cpp: samples arrive and frames are rendered, one after the other.
use electric_maple.Experience.Balance.{misses_end, opened, unopened, frame-IsSound}
use electric_maple.Common.{
  ℕ, ◌+◌, ◌≡◌, refl, sym, subst, Option, none, some, List, [], ◌∷◌, ◌++◌, arith, if◌then◌else◌,
}
use electric_maple.Common.Int.{ℤ}
use electric_maple.Stream.{StreamClient, Sample, unref, on_new_sample_cb}
use electric_maple.Stream.Samples.{count, new_sample_lem, count-append}
use electric_maple.Render.Objects.{Weight, weight_created, weight_destroyed}
use electric_maple.Experience.{EmRemoteExperience, InputState}
use electric_maple.Experience.Frame.{
  FrameEnv, Frame, finished, aborted, em_remote_experience_poll_and_render_frame,
}
use electric_maple.Experience.Accounts.{
  tally, is_begin, is_end, is_acquire, is_release, released, sent_ids, ids_below, held_sample,
  held_weight, Fixed, IsSound, Keeps,
}

-- A sample arrives at a time, or a frame is rendered.
pub data Op : Type 0 where
  arrive : ℤ → Sample → Op
  frame : FrameEnv → InputState → Op

-- The remote experience, the samples that were handed over, and those that arrivals unref'd.
pub record World : Type 0 where
  pub experience : EmRemoteExperience
  pub handed : List Sample
  pub dropped : List Sample

abbrev arrived : World → Sample → StreamClient × List Sample → World
arrived w s (sc, unrefd) = record {
  experience = record w.experience { stream_client = sc };
  handed = s ∷ w.handed;
  dropped = unrefd ++ w.dropped;
}

abbrev rendered : World → Frame → Option World
rendered w (finished r x) = some (record w { experience = x })
rendered w aborted = none

unfoldable pub step : Op → World → Option World
step (arrive now s) w = some (arrived w s (on_new_sample_cb now s w.experience.stream_client))
step (frame e i) w = rendered w (em_remote_experience_poll_and_render_frame e i w.experience)

abbrev then_run : (World → Option World) → Option World → Option World
then_run f none = none
then_run f (some w) = f w

-- `none` where a frame aborts.
unfoldable pub run : List Op → World → Option World
run [] w = some w
run (o ∷ os) w = then_run (run os) (step o w)

abbrev pub missed : Op → ℕ
missed (arrive now s) = 0
missed (frame e i) = if misses_end e then 1 else 0

unfoldable pub total_missed : List Op → ℕ
total_missed [] = 0
total_missed (o ∷ os) = missed o + total_missed os

-- What a world keeps: `f` has what was there at the start.
abbrev pub fixed_in : Fixed → World → Fixed
fixed_in f w = record f {
  handed = f.handed + count f.number w.handed;
  dropped = f.dropped + count f.number w.dropped;
}

abbrev pub IsSoundWorld : Fixed → World → Type 0
IsSoundWorld f w = IsSound (fixed_in f w) w.experience

arrive-IsSound :
    (f : Fixed) (now : ℤ) (s : Sample) (w : World)
    → IsSoundWorld f w
    → IsSoundWorld f (arrived w s (on_new_sample_cb now s w.experience.stream_client))
unfolding count
arrive-IsSound f now s w (p, n, o, h) =
    subst (λ q. IsSoundWorld f (arrived w s q))
      (sym (new_sample_lem now s w.experience.stream_client))
      (
        p,
        n,
        ground
            (arith, o, count-append f.number (unref w.experience.stream_client.sample) w.dropped),
        h,
      )

abbrev KeptIf : (World → Type 0) → Option World → Type 0
KeptIf P none = Unit
KeptIf P (some w) = P w

rendered-IsSound :
    (f : Fixed) (w : World) (r : Frame)
    → Keeps (IsSound (fixed_in f w)) r
    → KeptIf (IsSoundWorld f) (rendered w r)
rendered-IsSound f w (finished r x) s = s
rendered-IsSound f w aborted s = tt

step-IsSound :
    (f : Fixed) (o : Op) (w : World)
    → IsSoundWorld f w
    → KeptIf (IsSoundWorld (opened (missed o) f)) (step o w)
unfolding step
step-IsSound f (arrive now s) w h =
    let next = arrived w s (on_new_sample_cb now s w.experience.stream_client) in
    unopened (fixed_in f next) next.experience (arrive-IsSound f now s w h)
step-IsSound f (frame e i) w h =
    rendered-IsSound (opened (missed (frame e i)) f) w _ (frame-IsSound (fixed_in f w) e i _ h)

then_run-kept :
    {P : World → Type 0} {X : Type 0} {f : World → Option World} {w' : World} (x : Option World)
    → KeptIf P x
    → then_run f x ≡ some w'
    → ((v : World) → P v → f v ≡ some w' → X)
    → X
then_run-kept {X = X} none i e g = subst (KeptIf (λ _. X)) e tt
then_run-kept (some v) i e g = g v i e

reordered :
    (f : Fixed) (n m : ℕ) (w : World)
    → IsSoundWorld (opened m (opened n f)) w
    → IsSoundWorld (opened (n + m) f) w
reordered f n m w ((p, q), i, o, h) = ((omega (arith, p), q), i, o, h)

pub run-IsSound :
    (f : Fixed) (os : List Op) (w w' : World)
    → IsSoundWorld f w
    → run os w ≡ some w'
    → IsSoundWorld (opened (total_missed os) f) w'
unfolding run total_missed
run-IsSound f [] w w' h e =
    subst (KeptIf (IsSoundWorld (opened 0 f))) e (unopened (fixed_in f w) w.experience h)
run-IsSound f (o ∷ os) w w' h e =
    then_run-kept {P = IsSoundWorld (opened (missed o) f)} (step o w) (step-IsSound f o w h) e
      (λ v i r.
        reordered f (missed o) (total_missed os) w' (run-IsSound (opened (missed o) f) os v w' i r))

-- A remote experience as `em_remote_experience_new` leaves it, with a stream client that has no sample.
abbrev pub IsFresh : EmRemoteExperience → Type 0
IsFresh x =
    (x.calls ≡ [])
    × (x.next_up_message ≡ 0)
    × (x.prev_sample ≡ none)
    × (x.stream_client.sample ≡ none)

abbrev pub start : EmRemoteExperience → World
start x = record { experience = x; handed = []; dropped = [] }

abbrev pub fixed_at : ℕ → Weight → EmRemoteExperience → Fixed
fixed_at k w x = record {
  number = k;
  handed = 0;
  dropped = 0;
  weight = w;
  created = weight_created w x.objects;
  destroyed = weight_destroyed w x.objects;
  held = held_weight w x;
  open_frames = 0;
}

start-IsSoundWorld :
    (k : ℕ) (w : Weight) (x : EmRemoteExperience)
    → IsFresh x
    → IsSoundWorld (fixed_at k w x) (start x)
unfolding tally count released sent_ids ids_below
start-IsSoundWorld k w x (calls, next, prev, slot) = (
  (rw calls, rw calls),
  (rw calls, rw (calls, next)),
  rw (calls, prev, slot),
  (refl, omega arith),
)

pub run_fresh :
    (k : ℕ) (w : Weight) (os : List Op) (x : EmRemoteExperience) (w' : World)
    → IsFresh x
    → run os (start x) ≡ some w'
    → IsSoundWorld (opened (total_missed os) (fixed_at k w x)) w'
run_fresh k w os x w' h e =
    run-IsSound (fixed_at k w x) os (start x) w' (start-IsSoundWorld k w x h) e

abbrev no_weight : Weight
no_weight r n = 0

-- From a new remote experience, however samples arrive and frames are rendered and unless one aborts,
-- `xrBeginFrame` was called once for each `xrEndFrame` and for each frame that returned between the two
-- because the time, the views or the EGL context failed; and each swapchain image that was acquired was
-- released.
pub frames_ended :
    (os : List Op) (x : EmRemoteExperience) (w' : World)
    → IsFresh x
    → run os (start x) ≡ some w'
    → (tally is_begin w'.experience.calls ≡ tally is_end w'.experience.calls + total_missed os)
      × (tally is_acquire w'.experience.calls ≡ tally is_release w'.experience.calls)
frames_ended os x w' h e =
    let ((p, q), n, o, r) = run_fresh 0 no_weight os x w' h e in (omega (arith, p), q)

-- From a new remote experience, however samples arrive and frames are rendered and unless one aborts,
-- each sample that was handed over is in the stream client's slot, or in the one frame that the remote
-- experience keeps, or was unref'd by a later arrival or with the release of its frame, and just as often
-- as it was handed over.
pub samples_owned :
    (k : ℕ) (os : List Op) (x : EmRemoteExperience) (w' : World)
    → IsFresh x
    → run os (start x) ≡ some w'
    → count k w'.handed
      ≡ count k (unref w'.experience.stream_client.sample)
        + count k (held_sample w'.experience.prev_sample)
        + count k (released w'.experience.calls)
        + count k w'.dropped
samples_owned k os x w' h e =
    let (p, n, o, r) = run_fresh k no_weight os x w' h e in omega (arith, o)

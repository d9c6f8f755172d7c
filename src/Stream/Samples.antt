-- ===== src/Stream/Samples.antt =====
-- client/src/em/em_stream_client.c: who owns a decoded sample.
use electric_maple.Common.{
  ℕ, ◌+◌, ◌≡◌, refl, ap, ◌∙◌, subst, Bool, true, false, Option, none, some, List, [], ◌∷◌, ◌++◌,
  arith, ◌==◌, if◌then◌else◌,
}
use electric_maple.Common.Int.{ℤ}
use electric_maple.Stream.{
  StreamClient, Sample, unref, drop_frame, on_new_sample_cb, DownMessage, FrameData, TextureTarget,
}
use electric_maple.Stream.Pull.{
  EmSample, PullEnv, Pull, nothing, pulled, not_reached, blank_sample, posed_sample, fill_sample,
  record_latency, query_if_due, query_average, em_stream_client_get_average_frame_latency,
  first_target, set_target, finish_pull, read_sample, pull_slot, em_stream_client_try_pull_sample,
  em_stream_client_release_sample, message_or_last,
}

-- How often the sample numbered `k` stands in a list.
unfoldable pub count : ℕ → List Sample → ℕ
count k [] = 0
count k (s ∷ ss) = let rest = count k ss in if s.id == k then rest + 1 else rest

-- The stream client, the frames that the renderer has, the samples that appsink handed over, and those
-- that were unref'd.
pub record World : Type 0 where
  pub client : StreamClient
  pub frames : List EmSample
  pub handed : List Sample
  pub unrefd : List Sample

-- A decoded sample arrives, the renderer pulls, or it releases the frame that it got last.
pub data Op : Type 0 where
  arrive : ℤ → Sample → Op
  pull : PullEnv → Op
  release : Op

abbrev arrived : World → Sample → StreamClient × List Sample → World
arrived w s (sc, dropped) = record w {
  client = sc;
  handed = s ∷ w.handed;
  unrefd = dropped ++ w.unrefd;
}

abbrev pub after_pull : World → Pull → Option World
after_pull w (nothing sc) = some (record w { client = sc })
after_pull w (pulled r sc) = some (record w { client = sc; frames = r ∷ w.frames })
after_pull w not_reached = none

abbrev pub released : World → List EmSample → World
released w [] = w
released w (r ∷ rs) = record w {
  frames = rs;
  unrefd = em_stream_client_release_sample r ++ w.unrefd;
}

-- One operation; `none` is the failed assertion on the texture target.
unfoldable pub step : Op → World → Option World
step (arrive now s) w = some (arrived w s (on_new_sample_cb now s w.client))
step (pull e) w = after_pull w (em_stream_client_try_pull_sample e w.client)
step release w = some (released w w.frames)

abbrev pub then_run : (World → Option World) → Option World → Option World
then_run f none = none
then_run f (some w) = f w

unfoldable pub run : List Op → World → Option World
run [] w = some w
run (o ∷ os) w = then_run (run os) (step o w)

-- How often the sample `k` is in the slot, with the renderer, and unref'd.
unfoldable pub frame_samples : List EmSample → List Sample
frame_samples [] = []
frame_samples (r ∷ rs) = r.sample ∷ frame_samples rs

abbrev pub accounted : ℕ → World → ℕ
accounted k w =
    count k (unref w.client.sample) + count k (frame_samples w.frames) + count k w.unrefd

abbrev pub IsAccounted : ℕ → World → Type 0
IsAccounted k w = count k w.handed ≡ accounted k w

pub count-append : (k : ℕ) (xs ys : List Sample) → count k (xs ++ ys) ≡ count k xs + count k ys
unfolding count
count-append k [] ys = ground arith
count-append k (x ∷ xs) ys = ground (arith, count-append k xs ys)

-- A pull that returns a frame hands over the sample of the slot.
abbrev pub HandsOver : Option Sample → Pull → Type 0
HandsOver o (nothing sc) = sc.sample ≡ o
HandsOver o (pulled r sc) = (o ≡ some r.sample) × (sc.sample ≡ none)
HandsOver o not_reached = Unit

query_if_due-slot : (e : PullEnv) (sc : StreamClient) → (query_if_due e sc).sample ≡ sc.sample
unfolding query_if_due query_average em_stream_client_get_average_frame_latency
query_if_due-slot e sc = ground arith

record_latency-slot :
    (e : PullEnv) (d : FrameData) (sc : StreamClient) → (record_latency e d sc).sample ≡ sc.sample
unfolding record_latency
record_latency-slot e d sc = query_if_due-slot e _

fill_sample-slot :
    (e : PullEnv) (msg : DownMessage) (o : Option FrameData) (t : ℤ) (s : Sample)
    (sc : StreamClient)
    → ((fill_sample e msg o t s sc).0.sample ≡ sc.sample)
      × ((fill_sample e msg o t s sc).1.sample ≡ s)
unfolding fill_sample blank_sample posed_sample
fill_sample-slot e msg none t s sc = (refl, refl)
fill_sample-slot e msg (some d) t s sc = ground (arith, record_latency-slot e d sc)

first_target-HandsOver :
    (o : Option TextureTarget) (r : EmSample) (sc : StreamClient)
    → sc.sample ≡ none
    → HandsOver (some r.sample) (first_target o r sc)
unfolding first_target
first_target-HandsOver none r sc h = tt
first_target-HandsOver (some t) r sc h = (refl, h)

set_target-HandsOver :
    (s : Sample) (r : EmSample) (sc : StreamClient)
    → r.sample ≡ s
    → sc.sample ≡ none
    → HandsOver (some s) (set_target s r sc)
unfolding set_target
set_target-HandsOver s r sc e h =
    subst (λ t. HandsOver (some t) (set_target s r sc)) e (pick sc.gst_gl_gstreamer_context)
  where
    pick :
        (b : Bool)
        → HandsOver (some r.sample) (
            if b
            then pulled (record r { frame_texture_target = sc.frame_texture_target }) sc
            else first_target s.target r sc)
    pick true = (refl, h)
    pick false = first_target-HandsOver s.target r sc h

finish_pull-HandsOver :
    (s : Sample) (p : StreamClient × EmSample)
    → p.1.sample ≡ s
    → p.0.sample ≡ none
    → HandsOver (some s) (finish_pull s p)
unfolding finish_pull
finish_pull-HandsOver s (sc, r) e h = set_target-HandsOver s r sc e h

read_sample-HandsOver :
    (e : PullEnv) (s : Sample) (m : Option DownMessage × ℤ) (sc : StreamClient)
    → sc.sample ≡ none
    → HandsOver (some s) (read_sample e s m sc)
unfolding read_sample
read_sample-HandsOver e s (m, t) sc h =
    let msg = message_or_last m sc in
    let (slot, kept) = fill_sample-slot e msg msg.frame_data t s sc in
    finish_pull-HandsOver s (fill_sample e msg msg.frame_data t s sc) kept (slot ∙ h)

pull_slot-HandsOver :
    (e : PullEnv) (o : Option Sample) (sc : StreamClient)
    → sc.sample ≡ o
    → HandsOver o (pull_slot e o sc)
unfolding pull_slot
pull_slot-HandsOver e none sc h = h
pull_slot-HandsOver e (some s) sc h = read_sample-HandsOver e s _ _ refl

pub try_pull-HandsOver :
    (e : PullEnv) (sc : StreamClient) → HandsOver sc.sample (em_stream_client_try_pull_sample e sc)
unfolding em_stream_client_try_pull_sample
try_pull-HandsOver e sc = pick sc.appsink
  where
    pick : (b : Bool) → HandsOver sc.sample (if b then pull_slot e sc.sample sc else nothing sc)
    pick true = pull_slot-HandsOver e sc.sample sc refl
    pick false = refl

-- What a step does to a world, if it returns one.
abbrev Keeps : (World → Type 0) → Option World → Type 0
Keeps P none = Unit
Keeps P (some w) = P w

drop_frame_lem : (sc : StreamClient) → drop_frame sc ≡ false
unfolding drop_frame
drop_frame_lem sc = ground arith

pub new_sample_lem :
    (now : ℤ) (s : Sample) (sc : StreamClient)
    → on_new_sample_cb now s sc ≡ (
      record sc { sample = some s; sample_decode_end_time = now; received_first_frame = true },
      unref sc.sample,
    )
unfolding on_new_sample_cb
new_sample_lem now s sc = rw (drop_frame_lem sc)

pub count-slot : (k : ℕ) (o p : Option Sample) → o ≡ p → count k (unref o) ≡ count k (unref p)
count-slot k o p e = ap (λ t. count k (unref t)) e

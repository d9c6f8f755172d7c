-- ===== src/Stream/Taking.antt =====
-- client/src/em/em_stream_client.c: a pull takes what is in the slot and leaves the appsink alone.
use electric_maple.Common.{
  ◌≡◌, refl, ap, subst, Bool, true, false, Option, none, some, arith, if-elim, if◌then◌else◌,
}
use electric_maple.Common.Int.{ℤ}
use electric_maple.Stream.{StreamClient, Sample, DownMessage, FrameData, TextureTarget}
use electric_maple.Stream.Pull.{
  EmSample, PullEnv, Pull, nothing, pulled, not_reached, fill_sample, record_latency, query_if_due,
  query_average, em_stream_client_get_average_frame_latency, first_target, set_target, finish_pull,
  read_sample, pull_slot, em_stream_client_try_pull_sample, read_down_message_from_custom_meta,
  message_or_last,
}
use electric_maple.Stream.Samples.{HandsOver}

-- A pull leaves the client's appsink alone.
abbrev pub Leaves : Bool → Pull → Type 0
Leaves b (nothing sc) = sc.appsink ≡ b
Leaves b (pulled r sc) = sc.appsink ≡ b
Leaves b not_reached = Unit

latency-appsink :
    (e : PullEnv) (d : FrameData) (sc : StreamClient) → (record_latency e d sc).appsink ≡ sc.appsink
unfolding record_latency query_if_due query_average em_stream_client_get_average_frame_latency
latency-appsink e d sc = ground arith

fill-appsink :
    (e : PullEnv) (msg : DownMessage) (d : Option FrameData) (t : ℤ) (s : Sample)
    (sc : StreamClient)
    → (fill_sample e msg d t s sc).0.appsink ≡ sc.appsink
unfolding fill_sample
fill-appsink e msg none t s sc = refl
fill-appsink e msg (some d) t s sc = ground (arith, latency-appsink e d sc)

first_target-Leaves :
    (t : Option TextureTarget) (r : EmSample) (sc : StreamClient)
    → Leaves sc.appsink (first_target t r sc)
unfolding first_target
first_target-Leaves none r sc = tt
first_target-Leaves (some t) r sc = refl

finish-Leaves :
    (b : Bool) (s : Sample) (p : StreamClient × EmSample)
    → p.0.appsink ≡ b
    → Leaves b (finish_pull s p)
unfolding finish_pull set_target
finish-Leaves b s (sc, r) e =
    subst (λ c. Leaves c (finish_pull s (sc, r))) e
      (if-elim (Leaves sc.appsink) sc.gst_gl_gstreamer_context refl
        (first_target-Leaves s.target r sc))

read-Leaves :
    (e : PullEnv) (s : Sample) (m : Option DownMessage × ℤ) (sc : StreamClient)
    → Leaves sc.appsink (read_sample e s m sc)
unfolding read_sample
read-Leaves e s (m, t) sc =
    let msg = message_or_last m sc in
    finish-Leaves sc.appsink s (fill_sample e msg msg.frame_data t s sc)
      (fill-appsink e msg msg.frame_data t s sc)

pub slot-Leaves :
    (e : PullEnv) (o : Option Sample) (sc : StreamClient) → Leaves sc.appsink (pull_slot e o sc)
unfolding pull_slot
slot-Leaves e none sc = refl
slot-Leaves e (some s) sc =
    read-Leaves e s (read_down_message_from_custom_meta e.decode s.meta)
      (record sc { sample = none; skipped_frames = 0 })

try_pull-Leaves :
    (e : PullEnv) (sc : StreamClient) → Leaves sc.appsink (em_stream_client_try_pull_sample e sc)
unfolding em_stream_client_try_pull_sample
try_pull-Leaves e sc = if-elim (Leaves sc.appsink) sc.appsink (slot-Leaves e sc.sample sc) refl

-- A pull that returns a frame or fails its assertion.
abbrev IsFound : Pull → Type 0
IsFound (nothing sc) = ⊥
IsFound (pulled r sc) = Unit
IsFound not_reached = Unit

first_target-IsFound :
    (t : Option TextureTarget) (r : EmSample) (sc : StreamClient) → IsFound (first_target t r sc)
unfolding first_target
first_target-IsFound none r sc = tt
first_target-IsFound (some t) r sc = tt

finish-IsFound : (s : Sample) (p : StreamClient × EmSample) → IsFound (finish_pull s p)
unfolding finish_pull set_target
finish-IsFound s (sc, r) =
    if-elim IsFound sc.gst_gl_gstreamer_context tt (first_target-IsFound s.target r sc)

read-IsFound :
    (e : PullEnv) (s : Sample) (m : Option DownMessage × ℤ) (sc : StreamClient)
    → IsFound (read_sample e s m sc)
unfolding read_sample
read-IsFound e s (m, t) sc =
    let msg = message_or_last m sc in finish-IsFound s (fill_sample e msg msg.frame_data t s sc)

-- A pull takes what is in the slot, and leaves the slot empty.
abbrev pub Takes : Option Sample → Pull → Type 0
Takes o (nothing sc) = (o ≡ none) × (sc.sample ≡ none)
Takes o (pulled r sc) = (o ≡ some r.sample) × (sc.sample ≡ none)
Takes o not_reached = Unit

found-Takes : (o : Option Sample) (p : Pull) → IsFound p → HandsOver o p → Takes o p
found-Takes o (nothing sc) f h = elim f [ ]
found-Takes o (pulled r sc) f h = h
found-Takes o not_reached f h = tt

pub slot-Takes :
    (e : PullEnv) (o : Option Sample) (sc : StreamClient)
    → sc.sample ≡ o
    → HandsOver o (pull_slot e o sc)
    → Takes o (pull_slot e o sc)
unfolding pull_slot
slot-Takes e none sc h v = (refl, h)
slot-Takes e (some s) sc h v =
    found-Takes (some s) (pull_slot e (some s) sc)
      (read-IsFound e s (read_down_message_from_custom_meta e.decode s.meta)
        (record sc { sample = none; skipped_frames = 0 }))
      v

pub open_pull :
    (e : PullEnv) (sc : StreamClient)
    → sc.appsink ≡ true
    → em_stream_client_try_pull_sample e sc ≡ pull_slot e sc.sample sc
unfolding em_stream_client_try_pull_sample
open_pull e sc on = ap (λ b. if b then pull_slot e sc.sample sc else nothing sc) on

pub closed_pull :
    (e : PullEnv) (sc : StreamClient)
    → sc.appsink ≡ false
    → em_stream_client_try_pull_sample e sc ≡ nothing sc
unfolding em_stream_client_try_pull_sample
closed_pull e sc off = ap (λ b. if b then pull_slot e sc.sample sc else nothing sc) off

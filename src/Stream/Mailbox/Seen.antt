-- ===== src/Stream/Mailbox/Seen.antt =====
-- client/src/em/em_stream_client.c: every pull of samples that have a texture returns, as from a mailbox.
use electric_maple.Common.{
  ◌≡◌, refl, ap, sym, ◌∙◌, subst, true, false, Option, none, some, List, [], ◌∷◌, arith, if-elim,
  inl, inr, Bool-cases,
}
use electric_maple.Common.Int.{ℤ}
use electric_maple.Stream.{StreamClient, Sample, DownMessage, TextureTarget, on_drop_pipeline_cb}
use electric_maple.Stream.Lifecycle.{on_need_pipeline_cb}
use electric_maple.Stream.Pull.{
  EmSample, PullEnv, Pull, nothing, pulled, not_reached, fill_sample, first_target, set_target,
  finish_pull, read_sample, pull_slot, read_down_message_from_custom_meta, message_or_last,
}
use electric_maple.Stream.Samples.{HandsOver, try_pull-HandsOver, new_sample_lem}
use electric_maple.Stream.Taking.{Takes, slot-Takes, open_pull, closed_pull}
use electric_maple.Stream.Mailbox.{
  Happening, arrives, pulls, drops, needs, observe, after_pull, client_of, seen_of, mailbox_of,
  mailbox_seen, seen-IsMailbox,
}

-- The sample, if there is one, has a texture target.
abbrev pub IsDrawn : Option Sample → Type 0
IsDrawn none = Unit
IsDrawn (some s) = (t : TextureTarget) × (s.target ≡ some t)

-- Every sample that arrives has one.
abbrev pub AreDrawn : List Happening → Type 0
AreDrawn [] = Unit
AreDrawn (arrives now s ∷ hs) = IsDrawn (some s) × AreDrawn hs
AreDrawn (pulls e ∷ hs) = AreDrawn hs
AreDrawn (drops ∷ hs) = AreDrawn hs
AreDrawn (needs pipeline sink src ∷ hs) = AreDrawn hs

-- The pull fails no assertion.
abbrev IsReached : Pull → Type 0
IsReached (nothing sc) = Unit
IsReached (pulled r sc) = Unit
IsReached not_reached = ⊥

first_target-IsReached :
    (o : Option TextureTarget) (t : TextureTarget) (r : EmSample) (sc : StreamClient)
    → o ≡ some t
    → IsReached (first_target o r sc)
unfolding first_target
first_target-IsReached none t r sc e = ground arith
first_target-IsReached (some u) t r sc e = tt

finish-IsReached :
    (s : Sample) (p : StreamClient × EmSample) → IsDrawn (some s) → IsReached (finish_pull s p)
unfolding finish_pull set_target
finish-IsReached s (sc, r) (t, e) =
    if-elim IsReached sc.gst_gl_gstreamer_context tt (first_target-IsReached s.target t r sc e)

read-IsReached :
    (e : PullEnv) (s : Sample) (m : Option DownMessage × ℤ) (sc : StreamClient)
    → IsDrawn (some s)
    → IsReached (read_sample e s m sc)
unfolding read_sample
read-IsReached e s (m, t) sc d =
    let msg = message_or_last m sc in finish-IsReached s (fill_sample e msg msg.frame_data t s sc) d

slot-IsReached :
    (e : PullEnv) (o : Option Sample) (sc : StreamClient) → IsDrawn o → IsReached (pull_slot e o sc)
unfolding pull_slot
slot-IsReached e none sc d = tt
slot-IsReached e (some s) sc d =
    read-IsReached e s (read_down_message_from_custom_meta e.decode s.meta)
      (record sc { sample = none; skipped_frames = 0 }) d

-- The renderer sees something to the end.
abbrev Returns : List Happening → StreamClient → Type 0
Returns hs sc = (seen : List (Option Sample)) × (seen_of hs sc ≡ some seen)

observe-Returns :
    (s : Option Sample) (hs : List Happening) (sc : StreamClient)
    → Returns hs sc
    → (seen : List (Option Sample)) × (observe s (seen_of hs sc) ≡ some seen)
observe-Returns s hs sc (seen, e) = (s ∷ seen, ap (observe s) e)

after-Returns :
    (hs : List Happening) (o : Option Sample) (p : Pull)
    → ((c : StreamClient) → IsDrawn c.sample → Returns hs c)
    → Takes o p
    → IsReached p
    → (seen : List (Option Sample)) × (after_pull (seen_of hs) p ≡ some seen)
after-Returns hs o (nothing sc) rest (n, m) i =
    observe-Returns none hs sc (rest sc (subst IsDrawn (sym m) tt))
after-Returns hs o (pulled r sc) rest (n, m) i =
    observe-Returns (some r.sample) hs sc (rest sc (subst IsDrawn (sym m) tt))
after-Returns hs o not_reached rest v i = elim i [ ]

open-Returns :
    (hs : List Happening) (e : PullEnv) (sc : StreamClient)
    → ((c : StreamClient) → IsDrawn c.sample → Returns hs c)
    → IsDrawn sc.sample
    → sc.appsink ≡ true
    → Returns (pulls e ∷ hs) sc
unfolding seen_of
open-Returns hs e sc rest d on =
    let here = open_pull e sc on in
    let takes =
      slot-Takes e sc.sample sc refl (subst (HandsOver sc.sample) here (try_pull-HandsOver e sc)) in
    subst (λ p. (seen : List (Option Sample)) × (after_pull (seen_of hs) p ≡ some seen)) (sym here)
      (after-Returns hs sc.sample (pull_slot e sc.sample sc) rest takes
        (slot-IsReached e sc.sample sc d))

closed-Returns :
    (hs : List Happening) (e : PullEnv) (sc : StreamClient)
    → Returns hs sc
    → sc.appsink ≡ false
    → Returns (pulls e ∷ hs) sc
unfolding seen_of
closed-Returns hs e sc rest off =
    subst (λ p. (seen : List (Option Sample)) × (after_pull (seen_of hs) p ≡ some seen))
      (sym (closed_pull e sc off)) (observe-Returns none hs sc rest)

seen-Returns :
    (hs : List Happening) (sc : StreamClient) → IsDrawn sc.sample → AreDrawn hs → Returns hs sc
unfolding seen_of on_drop_pipeline_cb on_need_pipeline_cb
seen-Returns [] sc d ds = ([], refl)
seen-Returns (arrives now s ∷ hs) sc d (i, ds) =
    let next = record sc {
      sample = some s;
      sample_decode_end_time = now;
      received_first_frame = true;
    } in
    subst (λ p. Returns hs p.0) (sym (new_sample_lem now s sc)) (seen-Returns hs next i ds)
seen-Returns (pulls e ∷ hs) sc d ds = elim (Bool-cases sc.appsink) [
  | inl on ↦ open-Returns hs e sc (λ c k. seen-Returns hs c k ds) d on
  | inr off ↦ closed-Returns hs e sc (seen-Returns hs sc d ds) off
]
seen-Returns (drops ∷ hs) sc d ds = seen-Returns hs (on_drop_pipeline_cb sc) d ds
seen-Returns (needs pipeline sink src ∷ hs) sc d ds =
    seen-Returns hs (client_of sc pipeline sink src) d ds

-- As long as the sample in the slot, if there is one, and every sample that arrives have a texture, every
-- pull returns, and the renderer sees the samples that it would see of a mailbox for one sample: a sample
-- that arrives replaces the one that was not taken, a pull takes the sample out if there is one, and while
-- the pipeline is dropped the mailbox is closed, so that a pull finds nothing and the sample stays for the
-- next pipeline.
pub client-IsMailbox :
    (hs : List Happening) (sc : StreamClient)
    → IsDrawn sc.sample
    → AreDrawn hs
    → seen_of hs sc ≡ some (mailbox_seen hs (mailbox_of sc))
client-IsMailbox hs sc d ds =
    let (seen, e) = seen-Returns hs sc d ds in e ∙ ap (λ x. some x) (seen-IsMailbox hs sc seen e)

-- ===== src/Stream/Mailbox.antt =====
-- client/src/em/em_stream_client.c: the stream client, as the renderer sees it, is a mailbox for one sample.
use electric_maple.Common.{
  ℕ, ◌≡◌, refl, ap, sym, ◌∙◌, subst, Bool, true, false, Option, none, some, List, [], ◌∷◌, arith,
  if◌then◌else◌, inl, inr, Bool-cases,
}
use electric_maple.Common.Int.{ℤ}
use electric_maple.Stream.{StreamClient, Sample, on_new_sample_cb, on_drop_pipeline_cb}
use electric_maple.Stream.Lifecycle.{on_need_pipeline_cb}
use electric_maple.Stream.Pull.{
  PullEnv, Pull, nothing, pulled, not_reached, pull_slot, em_stream_client_try_pull_sample,
}
use electric_maple.Stream.Taking.{Leaves, slot-Leaves, Takes, slot-Takes, open_pull, closed_pull}
use electric_maple.Stream.Samples.{HandsOver, try_pull-HandsOver, new_sample_lem}
pub mod Seen

-- What happens to the client: a sample arrives, the renderer pulls, the connection drops the pipeline, or it
-- asks for one, which is parsed with or without the pads of the depayloader.
pub data Happening : Type 0 where
  arrives : ℤ → Sample → Happening
  pulls : PullEnv → Happening
  drops : Happening
  needs : ℕ → Bool → Bool → Happening

-- The samples that the pulls hand over, a pull without a frame as `none`; the whole is `none` when an
-- assertion fails.
abbrev pub observe : Option Sample → Option (List (Option Sample)) → Option (List (Option Sample))
observe s none = none
observe s (some seen) = some (s ∷ seen)

abbrev pub after_pull :
    (StreamClient → Option (List (Option Sample))) → Pull → Option (List (Option Sample))
after_pull f (nothing sc) = observe none (f sc)
after_pull f (pulled r sc) = observe (some r.sample) (f sc)
after_pull f not_reached = none

abbrev pub client_of : StreamClient → ℕ → Bool → Bool → StreamClient
client_of sc pipeline sink src = elim (on_need_pipeline_cb (some pipeline) sink src sc) [
  | none ↦ sc
  | some m ↦ m.client
]

unfoldable pub seen_of : List Happening → StreamClient → Option (List (Option Sample))
seen_of [] sc = some []
seen_of (arrives now s ∷ hs) sc = seen_of hs (on_new_sample_cb now s sc).0
seen_of (pulls e ∷ hs) sc = after_pull (seen_of hs) (em_stream_client_try_pull_sample e sc)
seen_of (drops ∷ hs) sc = seen_of hs (on_drop_pipeline_cb sc)
seen_of (needs pipeline sink src ∷ hs) sc = seen_of hs (client_of sc pipeline sink src)

-- The mailbox: an arrival replaces what is in it, a pull takes it out, and while it is closed a pull
-- finds nothing and takes nothing.
pub record Mailbox : Type 0 where
  pub content : Option Sample
  pub is_open : Bool

unfoldable pub mailbox_seen : List Happening → Mailbox → List (Option Sample)
mailbox_seen [] m = []
mailbox_seen (arrives now s ∷ hs) m = mailbox_seen hs (record m { content = some s })
mailbox_seen (pulls e ∷ hs) m =
    let taken = m.content ∷ mailbox_seen hs (record m { content = none }) in
    let untouched = none ∷ mailbox_seen hs m in if m.is_open then taken else untouched
mailbox_seen (drops ∷ hs) m = mailbox_seen hs (record m { is_open = false })
mailbox_seen (needs pipeline sink src ∷ hs) m = mailbox_seen hs (record m { is_open = true })

abbrev pub mailbox_of : StreamClient → Mailbox
mailbox_of sc = record { content = sc.sample; is_open = sc.appsink }

-- What is seen from a client on is what is seen from the mailbox that it is.
abbrev Agrees : List Happening → StreamClient → Type 0
Agrees hs sc =
    (seen : List (Option Sample))
    → seen_of hs sc ≡ some seen
    → seen ≡ mailbox_seen hs (mailbox_of sc)

observed :
    (s : Option Sample) (o : Option (List (Option Sample))) (seen : List (Option Sample))
    → observe s o ≡ some seen
    → (rest : List (Option Sample)) × (o ≡ some rest) × (seen ≡ s ∷ rest)
observed s none seen e = ground arith
observed s (some rest) seen e = (rest, refl, ground arith)

rest-Agrees :
    (hs : List Happening) (o s : Option Sample) (sc : StreamClient) (seen : List (Option Sample))
    → ((c : StreamClient) → Agrees hs c)
    → o ≡ s
    → sc.sample ≡ none
    → sc.appsink ≡ true
    → observe s (seen_of hs sc) ≡ some seen
    → seen ≡ o ∷ mailbox_seen hs (record { content = none; is_open = true })
rest-Agrees hs o s sc seen agrees n m on e =
    let (rest, found, split) = observed s (seen_of hs sc) seen e in
    let box : mailbox_of sc ≡ record { content = none; is_open = true } = ground arith in
    let same : rest ≡ mailbox_seen hs (record { content = none; is_open = true }) =
      agrees sc rest found ∙ ap (mailbox_seen hs) box in
    split ∙ (ap (λ x. x ∷ rest) (sym n) ∙ ap (λ x. o ∷ x) same)

taken-Agrees :
    (hs : List Happening) (o : Option Sample) (p : Pull) (seen : List (Option Sample))
    → ((sc : StreamClient) → Agrees hs sc)
    → Takes o p
    → Leaves true p
    → after_pull (seen_of hs) p ≡ some seen
    → seen ≡ o ∷ mailbox_seen hs (record { content = none; is_open = true })
taken-Agrees hs o (nothing sc) seen agrees (n, m) on e =
    rest-Agrees hs o none sc seen agrees n m on e
taken-Agrees hs o (pulled r sc) seen agrees (n, m) on e =
    rest-Agrees hs o (some r.sample) sc seen agrees n m on e
taken-Agrees hs o not_reached seen agrees v on e = ground arith

open-Agrees :
    (hs : List Happening) (e : PullEnv) (sc : StreamClient)
    → ((c : StreamClient) → Agrees hs c)
    → sc.appsink ≡ true
    → Agrees (pulls e ∷ hs) sc
unfolding seen_of mailbox_seen
open-Agrees hs e sc agrees on seen q =
    let here = open_pull e sc on in
    let takes =
      slot-Takes e sc.sample sc refl (subst (HandsOver sc.sample) here (try_pull-HandsOver e sc)) in
    let leaves : Leaves true (pull_slot e sc.sample sc) =
      subst (λ b. Leaves b (pull_slot e sc.sample sc)) on (slot-Leaves e sc.sample sc) in
    let seen_here = subst (λ p. after_pull (seen_of hs) p ≡ some seen) here q in
    let goal =
      taken-Agrees hs sc.sample (pull_slot e sc.sample sc) seen agrees takes leaves seen_here in
    subst
      (λ b. seen ≡ (
        if b
        then sc.sample ∷ mailbox_seen hs (record { content = none; is_open = b })
        else none ∷ mailbox_seen hs (record { content = sc.sample; is_open = b })))
      (sym on) goal

closed-Agrees :
    (hs : List Happening) (e : PullEnv) (sc : StreamClient)
    → Agrees hs sc
    → sc.appsink ≡ false
    → Agrees (pulls e ∷ hs) sc
unfolding seen_of mailbox_seen
closed-Agrees hs e sc agrees off seen q =
    let seen_here = subst (λ p. after_pull (seen_of hs) p ≡ some seen) (closed_pull e sc off) q in
    let (rest, found, split) = observed none (seen_of hs sc) seen seen_here in
    let same : seen ≡ none ∷ mailbox_seen hs (mailbox_of sc) =
      split ∙ ap (λ x. none ∷ x) (agrees rest found) in
    subst
      (λ b. seen ≡ (
        if b
        then sc.sample ∷ mailbox_seen hs (record { content = none; is_open = sc.appsink })
        else none ∷ mailbox_seen hs (mailbox_of sc)))
      (sym off) same

-- Whatever happens to a client, what the renderer sees is what it would see of a mailbox.
pub seen-IsMailbox :
    (hs : List Happening) (sc : StreamClient) (seen : List (Option Sample))
    → seen_of hs sc ≡ some seen
    → seen ≡ mailbox_seen hs (mailbox_of sc)
unfolding seen_of mailbox_seen on_drop_pipeline_cb on_need_pipeline_cb
seen-IsMailbox [] sc seen e = ground arith
seen-IsMailbox (arrives now s ∷ hs) sc seen e =
    seen-IsMailbox hs
      (record sc { sample = some s; sample_decode_end_time = now; received_first_frame = true })
      seen (subst (λ p. seen_of hs p.0 ≡ some seen) (new_sample_lem now s sc) e)
seen-IsMailbox (pulls p ∷ hs) sc seen e = elim (Bool-cases sc.appsink) [
  | inl on ↦ open-Agrees hs p sc (seen-IsMailbox hs) on seen e
  | inr off ↦ closed-Agrees hs p sc (seen-IsMailbox hs sc) off seen e
]
seen-IsMailbox (drops ∷ hs) sc seen e = seen-IsMailbox hs (on_drop_pipeline_cb sc) seen e
seen-IsMailbox (needs pipeline sink src ∷ hs) sc seen e =
    seen-IsMailbox hs (client_of sc pipeline sink src) seen e

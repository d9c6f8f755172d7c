-- ===== src/Stream/Arrivals.antt =====
-- client/src/em/em_stream_client.c: samples that arrive while the renderer pulls none.
use electric_maple.Common.{◌≡◌, refl, ap, sym, ◌∙◌, subst, true, Option, some, List, [], ◌∷◌, ◌++◌}
use electric_maple.Common.Int.{ℤ}
use electric_maple.Stream.{StreamClient, Sample, unref, on_new_sample_cb}
use electric_maple.Stream.Samples.{new_sample_lem}

abbrev pub Arrivals : Type 0
Arrivals = List (ℤ × Sample)

unfoldable pub samples : Arrivals → List Sample
samples [] = []
samples ((now, s) ∷ ss) = s ∷ samples ss

abbrev arrive_then :
    (StreamClient → StreamClient × List Sample)
    → StreamClient × List Sample
    → StreamClient × List Sample
arrive_then f (sc, dropped) = ((f sc).0, dropped ++ (f sc).1)

-- Samples that arrive one after the other while nothing is pulled.
unfoldable pub arrive_all : Arrivals → StreamClient → StreamClient × List Sample
arrive_all [] sc = (sc, [])
arrive_all ((now, s) ∷ ss) sc = arrive_then (arrive_all ss) (on_new_sample_cb now s sc)

++-assoc : {A : Type 0} (xs ys zs : List A) → (xs ++ ys) ++ zs ≡ xs ++ (ys ++ zs)
++-assoc [] ys zs = refl
++-assoc (x ∷ xs) ys zs = ap (λ r. x ∷ r) (++-assoc xs ys zs)

++-nil : (xs : List Sample) → xs ++ [] ≡ xs
++-nil [] = refl
++-nil (x ∷ xs) = ap (λ r. x ∷ r) (++-nil xs)

-- The last sample that arrived, or the one before.
unfoldable pub newest : Arrivals → Option Sample → Option Sample
newest [] o = o
newest ((now, s) ∷ ss) o = newest ss (some s)

abbrev after_arrival : ℤ → Sample → StreamClient → StreamClient
after_arrival now s sc = record sc {
  sample = some s;
  sample_decode_end_time = now;
  received_first_frame = true;
}

conserved :
    (ss : Arrivals) (sc : StreamClient)
    → (arrive_all ss sc).1 ++ unref (arrive_all ss sc).0.sample ≡ unref sc.sample ++ samples ss
unfolding arrive_all samples
conserved [] sc = sym (++-nil (unref sc.sample))
conserved ((now, s) ∷ ss) sc =
    let next = after_arrival now s sc in
    subst
      (λ p.
        (arrive_then (arrive_all ss) p).1 ++ unref (arrive_then (arrive_all ss) p).0.sample
        ≡ unref sc.sample ++ (s ∷ samples ss))
      (sym (new_sample_lem now s sc))
      (++-assoc (unref sc.sample) (arrive_all ss next).1 (unref (arrive_all ss next).0.sample)
        ∙ ap (λ r. unref sc.sample ++ r) (conserved ss next))

slot_newest :
    (ss : Arrivals) (sc : StreamClient) → (arrive_all ss sc).0.sample ≡ newest ss sc.sample
unfolding arrive_all newest
slot_newest [] sc = refl
slot_newest ((now, s) ∷ ss) sc =
    subst (λ p. (arrive_then (arrive_all ss) p).0.sample ≡ newest ss (some s))
      (sym (new_sample_lem now s sc)) (slot_newest ss (after_arrival now s sc))

-- When samples arrive while nothing is pulled, the newest of them is in the slot, and the samples that get
-- unref'd, followed by the one in the slot, are the one that was in the slot before, followed by the samples
-- in the order of their arrival; without an arrival the slot keeps its sample.
pub arrivals_in_order :
    (ss : Arrivals) (sc : StreamClient)
    → ((arrive_all ss sc).0.sample ≡ newest ss sc.sample)
      × ((arrive_all ss sc).1 ++ unref (arrive_all ss sc).0.sample ≡ unref sc.sample ++ samples ss)
arrivals_in_order ss sc = (slot_newest ss sc, conserved ss sc)

-- ===== src/Pipeline/Life/Stopping.antt =====
-- server/src/ems/gst/ems_gstreamer_pipeline.c: how the stop of the pipeline ends.
use electric_maple.Common.{
  ℕ, ◌≡◌, refl, true, false, List, [], ◌∷◌, arith, if◌then◌else◌, Bool-cases, Option-cases, inl,
  inr, none, some,
}
use electric_maple.Stream.Bus.{BusMessage}
use electric_maple.Pipeline.Life.{
  EmsPipeline, Taker, by_watch, by_stop, Stopped, stopped, process_ends, still_waits, ends_wait,
  gst_bus_cb, ems_gstreamer_pipeline_stop,
}

-- How a stop ends, without the pipeline.
pub data Ending : Type 0 where
  comes_back ends_process goes_on : Ending

abbrev pub ending : Stopped → Ending
ending (stopped p) = comes_back
ending process_ends = ends_process
ending (still_waits p) = goes_on

abbrev pub taken_by : Taker → Ending
taken_by (by_watch provider) = ends_process
taken_by by_stop = comes_back

-- The one who takes the first error or end of stream decides.
unfoldable pub first_fatal : List (Taker × BusMessage) → Ending
first_fatal [] = goes_on
first_fatal ((t, m) ∷ rest) =
    let later = first_fatal rest in if ends_wait m then taken_by t else later

gst_bus_cb-fatal :
    (provider : ℕ) (m : BusMessage) (p : EmsPipeline)
    → ends_wait m ≡ true
    → gst_bus_cb provider m p ≡ none
unfolding gst_bus_cb
gst_bus_cb-fatal provider m p e = ground arith

gst_bus_cb-is_fatal :
    (provider : ℕ) (m : BusMessage) (p : EmsPipeline)
    → gst_bus_cb provider m p ≡ none
    → ends_wait m ≡ true
unfolding gst_bus_cb
gst_bus_cb-is_fatal provider m p e = ground arith

-- Every other message keeps the watch going.
gst_bus_cb-goes_on :
    (provider : ℕ) (m : BusMessage) (p : EmsPipeline)
    → ends_wait m ≡ false
    → (q : EmsPipeline) × (gst_bus_cb provider m p ≡ some q)
gst_bus_cb-goes_on provider m p e = elim (Option-cases (gst_bus_cb provider m p)) [
  | inl gone ↦ let fatal = gst_bus_cb-is_fatal provider m p gone in ground arith
  | inr found ↦ found
]

-- Whatever is on the bus after the end of stream was sent, and whoever takes each message, the stop comes back exactly if it
-- takes the first error or end of stream, the watch ends the process if the watch takes it, and
-- without one the stop waits.
pub first_fatal_decides :
    (ms : List (Taker × BusMessage)) (p : EmsPipeline)
    → ending (ems_gstreamer_pipeline_stop ms p) ≡ first_fatal ms
unfolding ems_gstreamer_pipeline_stop first_fatal
first_fatal_decides [] p = refl
first_fatal_decides ((by_watch provider, m) ∷ rest) p = elim (Bool-cases (ends_wait m)) [
  | inl fatal ↦ rw (fatal, gst_bus_cb-fatal provider m p fatal) refl
  | inr fine ↦
      let (q, e) = gst_bus_cb-goes_on provider m p fine in rw (fine, e) (first_fatal_decides rest q)
]
first_fatal_decides ((by_stop, m) ∷ rest) p = elim (Bool-cases (ends_wait m)) [
  | inl fatal ↦ rw fatal refl
  | inr fine ↦ rw fine (first_fatal_decides rest p)
]

-- ===== src/Stream/Bus.antt =====
-- client/src/em/em_stream_client.c: the messages on the bus of the client's pipeline. The server's pipeline
-- has the same kinds of messages.
use electric_maple.Common.{
  ℕ, ◌+◌, ◌≡◌, refl, Bool, true, false, Option, none, some, List, [], ◌∷◌, arith, ◌==◌, Bool-cases,
  inl, inr, if◌then◌else◌,
}

-- The states of an element, and the contexts that an element may need.
pub data GstState : Type 0 where
  null_state ready paused playing : GstState

pub data ContextType : Type 0 where
  gl_display gl_app_context other_context : ContextType

-- A `GstMessage` with its source; `have_context` has the GL context of the structure, if there is one.
pub data BusMessage : Type 0 where
  need_context : ContextType → ℕ → BusMessage
  have_context : Option ℕ → BusMessage
  state_changed : ℕ → GstState → BusMessage
  qos error warning eos latency other : BusMessage

-- What the synchronous handler asks of GStreamer; `uninitialised` is a read of a variable without a value.
pub data SyncCall : Type 0 where
  set_context_display : ℕ → Option ℕ → SyncCall
  set_context_wrapped : ℕ → Option ℕ → SyncCall
  take_context : ℕ → SyncCall
  uninitialised : SyncCall

-- The client's display and wrapped context; the message always passes on.
unfoldable pub bus_sync_handler_cb : Option ℕ → Option ℕ → BusMessage → List SyncCall
bus_sync_handler_cb display wrapped (need_context gl_display src) =
    set_context_display src display ∷ []
bus_sync_handler_cb display wrapped (need_context gl_app_context src) =
    set_context_wrapped src wrapped ∷ []
bus_sync_handler_cb display wrapped (have_context (some context)) = take_context context ∷ []
bus_sync_handler_cb display wrapped (have_context none) = uninitialised ∷ []
bus_sync_handler_cb display wrapped m = []

-- The watch keeps on, with the references to the pipeline's clock that it took and the times that it had the
-- latency computed again, or `g_error` ends the process.
pub record Watch : Type 0 where
  pub clocks_taken : ℕ
  pub recalculations : ℕ

abbrev pub is_playing : GstState → Bool
is_playing playing = true
is_playing _ = false

unfoldable pub gst_bus_cb : ℕ → BusMessage → Watch → Option Watch
gst_bus_cb pipeline (state_changed src new_state) w =
    if src == pipeline
    then if is_playing new_state
      then some (record w { clocks_taken = w.clocks_taken + 1 })
      else some w
    else some w
gst_bus_cb pipeline error w = none
gst_bus_cb pipeline eos w = none
gst_bus_cb pipeline latency w = some (record w { recalculations = w.recalculations + 1 })
gst_bus_cb pipeline _ w = some w

abbrev pub bind_watch : (Watch → Option Watch) → Option Watch → Option Watch
bind_watch f none = none
bind_watch f (some w) = f w

-- The messages of the bus, one after the other.
unfoldable pub watch_all : ℕ → List BusMessage → Watch → Option Watch
watch_all pipeline [] w = some w
watch_all pipeline (m ∷ ms) w = bind_watch (watch_all pipeline ms) (gst_bus_cb pipeline m w)

abbrev pub is_fatal : BusMessage → Bool
is_fatal error = true
is_fatal eos = true
is_fatal _ = false

abbrev pub any_fatal : List BusMessage → Bool
any_fatal [] = false
any_fatal (m ∷ ms) = if is_fatal m then true else any_fatal ms

abbrev pub plays : ℕ → BusMessage → ℕ
plays pipeline (state_changed src new_state) =
    if src == pipeline then if is_playing new_state then 1 else 0 else 0
plays pipeline _ = 0

abbrev pub recomputes : BusMessage → ℕ
recomputes latency = 1
recomputes _ = 0

abbrev pub tally : (BusMessage → ℕ) → List BusMessage → ℕ
tally f [] = 0
tally f (m ∷ ms) = f m + tally f ms

add_assoc : (a b c : ℕ) → a + b + c ≡ a + (b + c)
add_assoc a b c = omega arith

gst_bus_cb-fatal :
    (pipeline : ℕ) (m : BusMessage) (w : Watch) → is_fatal m ≡ true → gst_bus_cb pipeline m w ≡ none
unfolding gst_bus_cb
gst_bus_cb-fatal pipeline m w e = ground arith

gst_bus_cb-counts :
    (pipeline : ℕ) (m : BusMessage) (w : Watch)
    → is_fatal m ≡ false
    → gst_bus_cb pipeline m w
      ≡ some (record {
        clocks_taken = w.clocks_taken + plays pipeline m;
        recalculations = w.recalculations + recomputes m;
      })
unfolding gst_bus_cb
gst_bus_cb-counts pipeline m w e = ground arith

-- The client survives the messages of its bus exactly if none is an error or an end of stream, and then
-- it has taken a reference to the clock each time that its pipeline came to play, and has had the
-- latency computed once for each latency message.
pub watch_all-counts :
    (pipeline : ℕ) (ms : List BusMessage) (w : Watch)
    → watch_all pipeline ms w ≡ (
        if any_fatal ms
        then none
        else some (record {
          clocks_taken = w.clocks_taken + tally (plays pipeline) ms;
          recalculations = w.recalculations + tally recomputes ms;
        }))
unfolding watch_all
watch_all-counts pipeline [] w = ground arith
watch_all-counts pipeline (m ∷ ms) w = elim (Bool-cases (is_fatal m)) [
  | inl fatal ↦ rw (fatal, gst_bus_cb-fatal pipeline m w fatal) refl
  | inr fine ↦
      let ih = watch_all-counts pipeline ms (record {
        clocks_taken = w.clocks_taken + plays pipeline m;
        recalculations = w.recalculations + recomputes m;
      }) in
      rw (
        fine,
        gst_bus_cb-counts pipeline m w fine,
        ih,
        add_assoc w.clocks_taken (plays pipeline m) (tally (plays pipeline) ms),
        add_assoc w.recalculations (recomputes m) (tally recomputes ms),
      )
]

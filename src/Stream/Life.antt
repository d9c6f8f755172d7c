-- ===== src/Stream/Life.antt =====
-- client/src/em/em_stream_client.c: the objects that the stream client holds, its thread and its end.
pub mod Accounts
use electric_maple.Common.{
  ℕ, Bool, true, false, Option, none, some, List, [], ◌∷◌, is_some, if◌then◌else◌,
}
use electric_maple.Common.Int.{ℤ}
use electric_maple.Stream.{
  StreamClient, em_stream_client_init, em_stream_client_stop, on_drop_pipeline_cb,
}

-- The play thread: not started, in its main loop, or after it.
pub data Thread : Type 0 where
  idle serving returned : Thread

-- A handler of the client that is connected to a signal of a connection.
pub data Handler : Type 0 where
  need_pipeline : ℕ → Handler
  drop_pipeline : ℕ → Handler

-- What is given to `g_clear_object` or `gst_clear_object` though it is no GObject.
pub data Misused : Type 0 where
  main_loop : Misused
  gst_sample : ℕ → Misused

-- The client with the objects that the other modules leave out, the references that it took and dropped,
-- and the connections that it disconnected.
pub record Life : Type 0 where
  pub client : StreamClient
  pub connection : Option ℕ
  pub gst_gl_display : Option ℕ
  pub gst_gl_wrapped_context : Option ℕ
  pub egl_context : Option ℕ
  pub play_thread : Thread
  pub handlers : List Handler
  pub taken : List ℕ
  pub dropped : List ℕ
  pub disconnected : List ℕ
  pub misused : List Misused

-- The object, or NULL; whether the thread helper is initialised, else the assertion of `init` fails.
unfoldable pub em_stream_client_new : Bool → ℤ → Option Life
em_stream_client_new false now = none
em_stream_client_new true now = some (record {
  client = em_stream_client_init now;
  connection = none;
  gst_gl_display = none;
  gst_gl_wrapped_context = none;
  egl_context = none;
  play_thread = idle;
  handlers = [];
  taken = [];
  dropped = [];
  disconnected = [];
  misused = [];
})

-- An EGL context, whether it can be made current, and the display and wrapped context that GStreamer makes.
pub record Egl : Type 0 where
  pub context : ℕ
  pub makes_current : Bool
  pub display : ℕ
  pub wrapped : ℕ

-- The new display and wrapped context come with a reference and are no floating ones, so `g_object_ref_sink`
-- takes a second to each; fields that hold something are overwritten.
unfoldable pub em_stream_client_set_egl_context : Egl → Life → Life
em_stream_client_set_egl_context e l =
    if e.makes_current
    then record l {
      egl_context = some e.context;
      gst_gl_display = some e.display;
      gst_gl_wrapped_context = some e.wrapped;
      taken = e.wrapped ∷ e.wrapped ∷ e.display ∷ e.display ∷ e.context ∷ l.taken;
    }
    else record l { egl_context = some e.context; taken = e.context ∷ l.taken }

-- `g_clear_object`: the reference of a field is dropped.
abbrev pub clear : Option ℕ → List ℕ → List ℕ
clear none dropped = dropped
clear (some k) dropped = k ∷ dropped

abbrev pub clear_connection : Life → Life
clear_connection l = record l { connection = none; dropped = clear l.connection l.dropped }

unfoldable pub em_stream_client_set_connection : Option ℕ → Life → Life
em_stream_client_set_connection none l = clear_connection l
em_stream_client_set_connection (some k) l =
    let cleared = clear_connection l in
    record cleared {
      connection = some k;
      taken = k ∷ cleared.taken;
      handlers = drop_pipeline k ∷ need_pipeline k ∷ cleared.handlers;
    }

-- Whether the thread starts, else the assertion fails.
unfoldable pub em_stream_client_spawn_thread : Bool → Option ℕ → Life → Option Life
em_stream_client_spawn_thread started connection l =
    if started
    then some (record (em_stream_client_set_connection connection l) { play_thread = serving })
    else none

-- The thread's function returns when something quits its main loop.
unfoldable pub em_stream_client_thread_func : Bool → Life → Life
em_stream_client_thread_func quit l =
    if quit then record l { play_thread = returned } else record l { play_thread = serving }

unfoldable pub drop_pipeline_of : Life → Life
drop_pipeline_of l = record l { client = on_drop_pipeline_cb l.client }

-- A call that comes back, or one that waits for the thread for good.
pub data Ended : Type 0 where
  ended : Life → Ended
  waits : Life → Ended

abbrev pub disconnects : Option ℕ → List ℕ → List ℕ
disconnects none rest = rest
disconnects (some k) rest = k ∷ rest

-- `em_stream_client_stop` after the wait.
unfoldable pub settle : Life → Life
settle l = record l {
  client = (em_stream_client_stop (is_some l.connection) l.client).client;
  disconnected = disconnects l.connection l.disconnected;
}

-- `returns` tells whether `os_thread_helper_stop_and_wait` comes back for a thread in this state.
unfoldable pub stop_life : (Thread → Bool) → Life → Ended
stop_life returns l =
    if l.client.pipeline
    then if returns l.play_thread
      then ended (settle (record l { play_thread = returned }))
      else waits l
    else ended (settle l)

abbrev pub misuse_sample : StreamClient → List Misused → List Misused
misuse_sample sc rest = elim sc.sample [ none ↦ rest | some s ↦ gst_sample s.id ∷ rest ]

-- The fields that `finalize` clears; the wrapped context is not one of them.
unfoldable pub clear_fields : Life → Life
clear_fields l = record l {
  client = record l.client { sample = none; gst_gl_gstreamer_context = false };
  connection = none;
  gst_gl_display = none;
  egl_context = none;
  dropped = clear l.egl_context (clear l.gst_gl_display (clear l.connection l.dropped));
  misused = misuse_sample l.client (main_loop ∷ l.misused);
}

abbrev pub clear_ended : Ended → Ended
clear_ended (ended l) = ended (clear_fields l)
clear_ended (waits l) = waits l

unfoldable pub em_stream_client_finalize : (Thread → Bool) → Life → Ended
em_stream_client_finalize returns l = clear_ended (stop_life returns l)

-- ===== src/Connection/Setup.antt =====
-- client/src/em/em_connection.c: bringing a connection up. `use_webrtc` stands for the macro USE_WEBRTC,
-- which em_connection.h leaves undefined.
use Prim.Native.String.{String}
use electric_maple.Common.{ℕ, Bool, true, Option, none, some, List, [], ◌∷◌, if◌then◌else◌}
use electric_maple.Connection.{
  Connection, Status, Call, acquire, message_new, transfer, reset, set_state, set_timeout,
  connect_async, emit, listen, Signal, on_need_pipeline, null, playing, Outcome, ok, aborted,
  exited, fault, clear, em_connection_init, em_connection_set_property, em_conn_update_status,
  em_connection_disconnect,
}

-- What the library calls of `em_connection_connect` return: `g_cancellable_new`, `soup_message_new` for the
-- address (no message where it is not valid), `enet_host_create`,
-- `enet_host_connect`, and whether `os_thread_helper_start` returned 0.
pub record ConnectEnv : Type 0 where
  pub cancellable : ℕ
  pub message : Option ℕ
  pub host : Option ℕ
  pub peer : Option ℕ
  pub started : Bool

-- `enet_initialize` (whether it returned 0), then `g_object_new` with the construct property
-- `websocket-uri`, then `os_thread_helper_init` (whether it returned a number ≥ 0).
unfoldable pub em_connection_new : Bool → ℕ → Bool → String → Outcome Connection
em_connection_new initialized cancellable thread_ready uri =
    if initialized
    then if thread_ready
      then ok (em_connection_set_property 1 uri (em_connection_init cancellable))
      else aborted
    else aborted

unfoldable pub renew_cancel : ConnectEnv → Connection → Connection
renew_cancel env c = elim c.ws_cancel [
  | none ↦ record c { ws_cancel = some env.cancellable; calls = acquire env.cancellable ∷ c.calls }
  | some h ↦ c
]

-- The new message is only given to libsoup.
unfoldable pub new_message : Option ℕ → List Call → List Call
new_message none cs = cs
new_message (some m) cs = message_new m ∷ cs

unfoldable pub request : ConnectEnv → Connection → Connection
request env c =
    em_conn_update_status
      (record c {
        calls =
            connect_async env.message c.websocket_uri c.ws_cancel
            ∷ new_message env.message (set_timeout 5 ∷ reset c.ws_cancel ∷ c.calls);
      })
      Status.connecting

unfoldable pub start_enet : ConnectEnv → Connection → Outcome Connection
start_enet env c = elim env.host [
  | none ↦ exited
  | some h ↦ elim env.peer [
    | none ↦ exited
    | some p ↦
        if env.started
        then ok (record c {
          client = some h;
          peer = some p;
          packet_queue = some [];
          enet_running = true;
        })
        else aborted
  ]
]

unfoldable pub em_connection_connect : ConnectEnv → Connection → Outcome Connection
em_connection_connect env c =
    start_enet env (request env (renew_cancel env (em_connection_disconnect c)))

-- The end of `em_connection_set_pipeline` under USE_WEBRTC; the argument is what
-- `gst_bin_get_by_name` finds under the name "webrtc".
unfoldable pub attach_webrtcbin : Option ℕ → Connection → Outcome Connection
attach_webrtcbin none c = aborted
attach_webrtcbin (some w) c = ok (record c {
  webrtcbin = some w;
  calls =
      listen (some w) "prepare-data-channel"
      ∷ listen (some w) "deep-notify::connection-state"
      ∷ listen (some w) "on-data-channel"
      ∷ listen (some w) "pad-added"
      ∷ listen (some w) "prepare-data-channel"
      ∷ listen (some w) "on-ice-candidate"
      ∷ acquire w
      ∷ c.calls;
})

unfoldable pub stop_pipeline : Option ℕ → List Call → List Call
stop_pipeline none cs = cs
stop_pipeline (some p) cs = set_state p null ∷ cs

-- The result of `soup_session_websocket_connect_finish` comes with a reference and is no floating one, so
-- `g_object_ref_sink` takes a second.
unfoldable pub adopt_websocket : Option ℕ → Connection → Connection
adopt_websocket none c = c
adopt_websocket (some w) c = record c { ws = some w; calls = acquire w ∷ transfer w ∷ c.calls }

unfoldable pub fail_websocket : Connection → Connection
fail_websocket c =
    em_conn_update_status (record c { calls = emit Signal.websocket_failed ∷ c.calls })
      Status.websocket_failed

unfoldable pub play_pipeline : Connection → Connection
play_pipeline c = elim c.pipeline [
  | none ↦ em_connection_disconnect c
  | some p ↦ record c { calls = set_state p playing ∷ c.calls }
]

-- A handler that aborts the program ends it there.
unfoldable pub play_after : Outcome Connection → Outcome Connection
play_after (ok c) = ok (play_pipeline c)
play_after aborted = aborted
play_after exited = exited
play_after fault = fault

module _ (use_webrtc : Bool) where
  unfoldable pub em_connection_set_pipeline : Option ℕ → ℕ → Connection → Outcome Connection
  em_connection_set_pipeline webrtcbin p c =
      let c' = record c {
        pipeline = some p;
        calls = acquire p ∷ clear c.pipeline (stop_pipeline c.pipeline c.calls);
      } in
      if use_webrtc
      then attach_webrtcbin webrtcbin (em_conn_update_status c' Status.negotiating)
      else ok c'

  unfoldable pub announce_websocket : Connection → Connection
  announce_websocket c = record c {
    status = if use_webrtc then c.status else Status.connected;
    calls = emit Signal.websocket_connected ∷ listen c.ws "message" ∷ c.calls;
  }

  -- The handler of `on-need-pipeline` hands over a pipeline, with the element that is found in it, or none.
  unfoldable pub handle_need : Option (ℕ × Option ℕ) → Connection → Outcome Connection
  handle_need none c = ok c
  handle_need (some (p, w)) c = em_connection_set_pipeline w p c

  unfoldable pub open_pipeline : Option (ℕ × Option ℕ) → Connection → Outcome Connection
  open_pipeline provided c = elim c.pipeline [
    | some p ↦ aborted
    | none ↦
        play_after (handle_need provided (record c { calls = emit on_need_pipeline ∷ c.calls }))
  ]

  unfoldable pub em_conn_websocket_connected_cb :
      Option ℕ → Bool → Option (ℕ × Option ℕ) → Connection → Outcome Connection
  em_conn_websocket_connected_cb conn error provided c = elim c.ws [
    | some w ↦ aborted
    | none ↦
        let c' = adopt_websocket conn c in
        if error then ok (fail_websocket c') else open_pipeline provided (announce_websocket c')
  ]

-- `em_conn_webrtc_on_data_channel_cb`; no reference is taken.
unfoldable pub em_conn_webrtc_on_data_channel_cb : ℕ → Connection → Outcome Connection
em_conn_webrtc_on_data_channel_cb d c = elim c.datachannel [
  | some _ ↦ aborted
  | none ↦
      let c' = em_conn_update_status (record c { datachannel = some d }) Status.connected in
      ok (record c' { calls = emit Signal.connected ∷ c'.calls })
]

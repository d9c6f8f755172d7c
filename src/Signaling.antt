-- ===== src/Signaling.antt =====
-- server/src/ems/gst/ems_signaling_server.c: the websocket clients of the server, its messages and its
-- ENet thread. A websocket connection is a number, which is also its client's id.
pub mod Clients
pub mod Handshake
pub mod Life
use Prim.Native.String.{String}
use text.Mathlib.Text.{◌==◌ as str_eq}
use electric_maple.Common.{
  ℕ, Bool, true, false, Option, none, some, List, [], ◌∷◌, ◌++◌, ◌==◌, if◌then◌else◌,
}
use electric_maple.Connection.Messages.{guint, candidate_message}
use electric_maple.Connection.Send.{
  EnetEvent, receive, disconnect, nothing, connect, disconnect_timeout,
}
use electric_maple.Json.{JsonGlib}

-- What the server emits to the pipeline, sends, or asks of the libraries.
pub data Event (Text : Type 0) : Type 0 where
  ws_client_connected : ℕ → String → Event Text
  ws_client_disconnected : ℕ → Event Text
  sdp_answer : ℕ → Option String → Event Text
  candidate : ℕ → ℕ → Option String → Event Text
  up_message : List ℕ → Event Text
  ref : ℕ → Event Text
  listen : ℕ → String → Event Text
  send_text : ℕ → Text → Event Text
  not_found : Event Text
  free : Event Text
  crash : Event Text

-- `SoupWebsocketState`.
pub data SocketState : Type 0 where
  open_state closing closed : SocketState

-- `EmsSignalingServer`: the clients, in the order in which they came, and whether the ENet host is there.
pub record Server : Type 0 where
  pub websocket_connections : List ℕ
  pub enet_host : Bool
  pub enet_running : Bool

-- `ems_signaling_server_new`: `enet_initialize` returned 0, the host was created, the thread was
-- initialised and started. `none` is the null pointer, an inner `none` a failed assertion.
pub ems_signaling_server_new : Bool → Bool → Bool → Bool → Option (Option Server)
ems_signaling_server_new initialized host ready started =
    if initialized
    then if host
      then if ready
        then if started
          then some
              (some (record { websocket_connections = []; enet_host = true; enet_running = true }))
          else some none
        else some none
      else some
          (some (record { websocket_connections = []; enet_host = false; enet_running = false }))
    else none

-- `g_slist_remove`: the first element that is equal.
unfoldable pub slist_remove : ℕ → List ℕ → List ℕ
slist_remove k [] = []
slist_remove k (c ∷ cs) = if c == k then cs else c ∷ slist_remove k cs

unfoldable pub slist_find : ℕ → List ℕ → Bool
slist_find k [] = false
slist_find k (c ∷ cs) = if c == k then true else slist_find k cs

module _ (Text : Type 0) where
  -- A packet is its bytes; the emission hands them to the pipeline, and `g_free` gets the GBytes.
  unfoldable pub handle_enet_event : EnetEvent → (ℕ → List ℕ) → List (Event Text)
  handle_enet_event (receive p) bytes = up_message (bytes p) ∷ free ∷ []
  handle_enet_event disconnect bytes = []
  handle_enet_event nothing bytes = []
  handle_enet_event connect bytes = []
  handle_enet_event disconnect_timeout bytes = []

  -- The events that `enet_host_service` reports in one round of `enet_thread_func`.
  unfoldable pub handle_enet_events : List EnetEvent → (ℕ → List ℕ) → List (Event Text)
  handle_enet_events [] bytes = []
  handle_enet_events (e ∷ es) bytes = handle_enet_event e bytes ++ handle_enet_events es bytes

  unfoldable pub enet_round : List EnetEvent → (ℕ → List ℕ) → Server → List (Event Text)
  enet_round es bytes s =
      if s.enet_running then if s.enet_host then handle_enet_events es bytes else [] else []

  unfoldable pub add_websocket_connection : ℕ → String → Server → Server × List (Event Text)
  add_websocket_connection k address s = (
    record s { websocket_connections = s.websocket_connections ++ (k ∷ []) },
    ref k ∷ listen k "message" ∷ listen k "closed" ∷ ws_client_connected k address ∷ [],
  )

  unfoldable pub websocket_cb : ℕ → String → Server → Server × List (Event Text)
  websocket_cb k remote_address s = add_websocket_connection k remote_address s

  unfoldable pub remove_websocket_connection : ℕ → Server → Server × List (Event Text)
  remove_websocket_connection k s = (
    record s { websocket_connections = slist_remove k s.websocket_connections },
    ws_client_disconnected k ∷ [],
  )

  unfoldable pub ws_closed_cb : ℕ → Server → Server × List (Event Text)
  ws_closed_cb k s = remove_websocket_connection k s

  unfoldable pub http_cb : List (Event Text)
  http_cb = not_found ∷ []

module _ (j : JsonGlib) where
  open j use {
    Node, Text, object, string, print, parse, has_member, string_member, int_member, object_member,
  }

  unfoldable pub send_to_websocket_client :
      Server → (ℕ → SocketState) → ℕ → Node → List (Event Text)
  send_to_websocket_client s state k msg =
      if slist_find k s.websocket_connections
      then elim (state k) [ open_state ↦ send_text k (print msg) ∷ [] | _ ↦ [] ]
      else []

  abbrev pub offer_message : String → List (String × Node)
  offer_message sdp = ("msg", string "offer") ∷ ("sdp", string sdp) ∷ []

  unfoldable pub ems_signaling_server_send_sdp_offer :
      Server → (ℕ → SocketState) → ℕ → String → List (Event Text)
  ems_signaling_server_send_sdp_offer s state k sdp =
      send_to_websocket_client s state k (object (offer_message sdp))

  unfoldable pub ems_signaling_server_send_candidate :
      Server → (ℕ → SocketState) → ℕ → ℕ → String → List (Event Text)
  ems_signaling_server_send_candidate s state k mlineindex text =
      send_to_websocket_client s state k (object (candidate_message j mlineindex text))

  unfoldable pub emit_candidate : ℕ → Option Node → List (Event Text)
  emit_candidate k body =
      candidate k (guint (int_member body "sdpMLineIndex")) (string_member body "candidate") ∷ []

  -- The branch on the type; `g_str_equal` on NULL dereferences it.
  unfoldable pub dispatch_text : ℕ → Node → Option String → List (Event Text)
  dispatch_text k msg none = crash ∷ []
  dispatch_text k msg (some msg_type) =
      if str_eq msg_type "answer"
      then sdp_answer k (string_member (some msg) "sdp") ∷ []
      else if str_eq msg_type "candidate"
      then emit_candidate k (object_member (some msg) "candidate")
      else []

  -- What follows `json_parser_load_from_data`.
  unfoldable pub read_text_root : ℕ → Option Node → List (Event Text)
  read_text_root k none = []
  read_text_root k (some msg) =
      if has_member (some msg) "msg"
      then dispatch_text k msg (string_member (some msg) "msg")
      else []

  unfoldable pub ems_signaling_server_handle_text_message : ℕ → Text → List (Event Text)
  ems_signaling_server_handle_text_message k message = read_text_root k (parse message)

  -- `SOUP_WEBSOCKET_DATA_TEXT` is 1 and `SOUP_WEBSOCKET_DATA_BINARY` 2; any other type fails an assertion.
  unfoldable pub ws_message_cb : Bool → ℕ → ℕ → Text → List (Event Text)
  ws_message_cb use_webrtc type k message =
      if type == 2
      then []
      else if type == 1
      then if use_webrtc then ems_signaling_server_handle_text_message k message else []
      else crash ∷ []

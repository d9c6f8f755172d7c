-- ===== src/Connection.antt =====
-- client/src/em/em_connection.c and em_status.h: the connection's state, its status, and its teardown.
-- An object is a number (its address). What the code asks of GLib, GStreamer and libsoup is a list of
-- calls, newest first; what those return is an argument.
pub mod Setup
pub mod Send
pub mod Teardown
pub mod References
pub mod Linked
pub mod Session
pub mod Ledger
pub mod Life
pub mod Names
pub mod Messages
pub mod Enet
pub mod Clock
use Prim.Native.String.{String}
use electric_maple.Common.{ℕ, Bool, false, Option, none, some, List, [], ◌∷◌, ◌==◌, if◌then◌else◌}
use electric_maple.Common.Int.{ℤ, pos}

-- `enum em_status`.
pub data Status : Type 0 where
  idle_not_connected connecting websocket_failed negotiating : Status
  connected_no_data connected disconnected_error disconnected_remote_close : Status

-- The enumerator's value, by which C compares.
abbrev pub status_code : Status → ℕ
status_code idle_not_connected = 0
status_code connecting = 1
status_code websocket_failed = 2
status_code negotiating = 3
status_code connected_no_data = 4
status_code connected = 5
status_code disconnected_error = 6
status_code disconnected_remote_close = 7

-- `GstWebRTCPeerConnectionState`.
pub data PeerState : Type 0 where
  new connecting connected disconnected failed closed : PeerState

-- The GObject signals that the connection emits.
pub data Signal : Type 0 where
  websocket_connected websocket_failed connected on_need_pipeline on_drop_pipeline : Signal

pub data GstState : Type 0 where
  null playing : GstState

-- The calls into the libraries. `acquire` is a reference that the code takes (`g_cancellable_new`,
-- `g_object_ref_sink`, `gst_bin_get_by_name`), `message_new` and `transfer` are the full references that
-- `soup_message_new` and `soup_session_websocket_connect_finish` hand over with their results, and
-- `release` is one that `g_clear_object` or `gst_clear_object` drops. `peer_send` has whether ENet accepted
-- the packet.
pub data Call : Type 0 where
  acquire message_new transfer release cancel close_ws : ℕ → Call
  reset : Option ℕ → Call
  set_state : ℕ → GstState → Call
  set_timeout : ℕ → Call
  connect_async : Option ℕ → String → Option ℕ → Call
  emit : Signal → Call
  listen : Option ℕ → String → Call
  channel_send : ℕ → List ℕ → Call
  peer_send : Option ℕ → ℕ → Bool → Call
  packet_destroy : ℕ → Call
  host_flush : ℕ → Call

-- `struct _EmConnection`. The queue is `none` until `em_connection_connect` makes it.
pub record Connection : Type 0 where
  pub websocket_uri : String
  pub ws_cancel : Option ℕ
  pub ws : Option ℕ
  pub pipeline : Option ℕ
  pub webrtcbin : Option ℕ
  pub datachannel : Option ℕ
  pub status : Status
  pub server_offset : ℤ
  pub client : Option ℕ
  pub peer : Option ℕ
  pub enet_running : Bool
  pub packet_queue : Option (List ℕ)
  pub calls : List Call

-- How a call ends: with a value, in a failed `g_assert` or `abort`, in `exit`, or in a null dereference.
pub data Outcome {ℓ} (A : Type ℓ) : Type ℓ where
  ok : A → Outcome A
  aborted exited fault : Outcome A

abbrev pub default_websocket_uri : String
default_websocket_uri = "ws://10.11.9.210:52356/ws"

-- `em_connection_init` on the zeroed object; `cancellable` is what `g_cancellable_new` returns.
pub em_connection_init : ℕ → Connection
em_connection_init cancellable = record {
  websocket_uri = default_websocket_uri;
  ws_cancel = some cancellable;
  ws = none;
  pipeline = none;
  webrtcbin = none;
  datachannel = none;
  status = idle_not_connected;
  server_offset = pos 0;
  client = none;
  peer = none;
  enet_running = false;
  packet_queue = none;
  calls = acquire cancellable ∷ [];
}

-- `em_connection_set_property` for `PROP_WEBSOCKET_URI` (1); any other id only warns.
pub em_connection_set_property : ℕ → String → Connection → Connection
em_connection_set_property id value c = if id == 1 then record c { websocket_uri = value } else c

pub em_connection_get_property : ℕ → Connection → Option String
em_connection_get_property id c = if id == 1 then some c.websocket_uri else none

pub em_conn_update_status : Connection → Status → Connection
em_conn_update_status c s =
    if status_code s == status_code c.status then c else record c { status = s }

pub em_conn_update_status_from_peer_connection_state : Connection → PeerState → Connection
em_conn_update_status_from_peer_connection_state c new = c
em_conn_update_status_from_peer_connection_state c PeerState.connecting =
    em_conn_update_status c negotiating
em_conn_update_status_from_peer_connection_state c PeerState.connected =
    em_conn_update_status c connected_no_data
em_conn_update_status_from_peer_connection_state c disconnected =
    em_conn_update_status c idle_not_connected
em_conn_update_status_from_peer_connection_state c closed =
    em_conn_update_status c idle_not_connected
em_conn_update_status_from_peer_connection_state c failed =
    em_conn_update_status c disconnected_error

-- `g_clear_object` and `gst_clear_object` on a field, which is null afterwards.
abbrev pub clear : Option ℕ → List Call → List Call
clear none cs = cs
clear (some h) cs = release h ∷ cs

pub cancel_request : Connection → Connection
cancel_request c = elim c.ws_cancel [
  | none ↦ c
  | some h ↦ record c { ws_cancel = none; calls = release h ∷ cancel h ∷ c.calls }
]

-- The handlers of `on-drop-pipeline` belong to the stream client.
pub drop_pipeline : Connection → Connection
drop_pipeline c = elim c.pipeline [
  | none ↦ c
  | some p ↦ record c { calls = emit on_drop_pipeline ∷ set_state p null ∷ c.calls }
]

pub close_websocket : Connection → Connection
close_websocket c = elim c.ws [
  | none ↦ c
  | some w ↦ record c { ws = none; calls = release w ∷ close_ws w ∷ c.calls }
]

pub clear_elements : Connection → Connection
clear_elements c = record c {
  webrtcbin = none;
  datachannel = none;
  pipeline = none;
  calls = clear c.pipeline (clear c.datachannel (clear c.webrtcbin c.calls));
}

-- The record stands for an object that is there, so the test for a null argument has no counterpart.
pub em_conn_disconnect_internal : Connection → Status → Connection
em_conn_disconnect_internal c s =
    em_conn_update_status (clear_elements (close_websocket (drop_pipeline (cancel_request c)))) s

pub em_connection_disconnect : Connection → Connection
em_connection_disconnect c = em_conn_disconnect_internal c idle_not_connected

pub em_conn_data_channel_error_cb : Connection → Connection
em_conn_data_channel_error_cb c = em_conn_disconnect_internal c disconnected_error

pub em_conn_data_channel_close_cb : Connection → Connection
em_conn_data_channel_close_cb c = em_conn_disconnect_internal c disconnected_remote_close

pub em_connection_get_status : Connection → Status
em_connection_get_status c = c.status

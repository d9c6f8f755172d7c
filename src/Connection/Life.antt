-- ===== src/Connection/Life.antt =====
-- client/src/em/em_connection.c: a connection for the default address, the end of a connection, the
-- registered properties and signals, and the callbacks of webrtcbin that do not change the connection.
use Prim.Native.String.{String}
use electric_maple.Common.{ℕ, Bool, true, Option, none, List, [], ◌∷◌, if◌then◌else◌}
use electric_maple.Connection.{
  Connection, PeerState, Outcome, ok, aborted, clear, default_websocket_uri, em_connection_init,
  em_connection_set_property, em_connection_disconnect,
}
use electric_maple.Connection.Session.{Session}

-- The construct-only property has the default address; the results are those of `em_connection_new`.
unfoldable pub em_connection_new_localhost : Bool → ℕ → Bool → Outcome Connection
em_connection_new_localhost initialized cancellable thread_ready =
    if initialized
    then if thread_ready
      then ok (em_connection_set_property 1 default_websocket_uri (em_connection_init cancellable))
      else aborted
    else aborted

-- The connection with its libsoup session and whether its address is freed.
pub record Whole : Type 0 where
  pub conn : Connection
  pub soup_session : Option ℕ
  pub uri_freed : Bool

unfoldable pub em_connection_dispose : Whole → Whole
em_connection_dispose w =
    let down = em_connection_disconnect w.conn in
    record w {
      conn = record down {
        ws_cancel = none;
        calls = clear down.ws_cancel (clear w.soup_session down.calls);
      };
      soup_session = none;
    }

unfoldable pub em_connection_finalize : Whole → Whole
em_connection_finalize w = record w { uri_freed = true }

-- What `em_connection_class_init` registers: the property, the signals with a handler of the class, and
-- those without one.
pub data Registered : Type 0 where
  property : String → String → Registered
  action : String → Registered
  signal : String → Registered

unfoldable pub em_connection_class_init : List Registered
em_connection_class_init =
    property "websocket-uri" default_websocket_uri
    ∷ action "connect"
    ∷ action "disconnect"
    ∷ action "set-pipeline"
    ∷ signal "websocket-connected"
    ∷ signal "websocket-failed"
    ∷ signal "connected"
    ∷ signal "on-need-pipeline"
    ∷ signal "on-drop-pipeline"
    ∷ []

unfoldable pub peer_connection_state_to_string : PeerState → String
peer_connection_state_to_string PeerState.new = "GST_WEBRTC_PEER_CONNECTION_STATE_NEW"
peer_connection_state_to_string PeerState.connecting = "GST_WEBRTC_PEER_CONNECTION_STATE_CONNECTING"
peer_connection_state_to_string PeerState.connected = "GST_WEBRTC_PEER_CONNECTION_STATE_CONNECTED"
peer_connection_state_to_string PeerState.disconnected =
    "GST_WEBRTC_PEER_CONNECTION_STATE_DISCONNECTED"
peer_connection_state_to_string PeerState.failed = "GST_WEBRTC_PEER_CONNECTION_STATE_FAILED"
peer_connection_state_to_string PeerState.closed = "GST_WEBRTC_PEER_CONNECTION_STATE_CLOSED"

-- The signals of a data channel that the connection listens to.
pub data ChannelSignal : Type 0 where
  on_close on_error on_message_string on_message_data : ChannelSignal

unfoldable pub em_conn_webrtc_prepare_data_channel_cb : List ChannelSignal
em_conn_webrtc_prepare_data_channel_cb =
    on_close ∷ on_error ∷ on_message_string ∷ on_message_data ∷ []

-- The objects that are not given back: a source pad's caps and their text.
unfoldable pub em_conn_webrtc_on_incoming_stream : Bool → ℕ → ℕ → List ℕ
em_conn_webrtc_on_incoming_stream is_src caps text = if is_src then caps ∷ text ∷ [] else []

-- The buffer's size that the ICE transport gets; `g_error` ends the process if a transport is missing.
unfoldable pub em_conn_webrtc_on_prepare_data_channel : Bool → Bool → Bool → Outcome ℕ
em_conn_webrtc_on_prepare_data_channel sctp dtls ice =
    if sctp then if dtls then if ice then ok 8388608 else aborted else aborted else aborted

-- ===== src/Connection/Teardown.antt =====
-- client/src/em/em_connection.c: what is left of a connection after a disconnect.
use electric_maple.Common.{◌≡◌, none, arith}
use electric_maple.Connection.{
  Connection, Status, em_conn_update_status, em_conn_disconnect_internal, cancel_request,
  drop_pipeline, close_websocket, clear_elements,
}

pub status-em_conn_update_status :
    (c : Connection) (s : Status) → (em_conn_update_status c s).status ≡ s
unfolding em_conn_update_status
status-em_conn_update_status c s = ground arith

-- Nothing that the connection held through GStreamer or libsoup is left.
pub record IsDown (c : Connection) : Type 0 where
  pub no_cancel : c.ws_cancel ≡ none
  pub no_ws : c.ws ≡ none
  pub no_pipeline : c.pipeline ≡ none
  pub no_webrtcbin : c.webrtcbin ≡ none
  pub no_datachannel : c.datachannel ≡ none

-- The parts that a disconnect leaves alone: the ENet side, the address and the clock offset.
pub record IsKept (c d : Connection) : Type 0 where
  pub uri : d.websocket_uri ≡ c.websocket_uri
  pub offset : d.server_offset ≡ c.server_offset
  pub client : d.client ≡ c.client
  pub peer : d.peer ≡ c.peer
  pub running : d.enet_running ≡ c.enet_running
  pub queue : d.packet_queue ≡ c.packet_queue

update_status-keeps :
    (b c : Connection) (s : Status)
    → IsDown c × IsKept b c
    → IsDown (em_conn_update_status c s) × IsKept b (em_conn_update_status c s)
unfolding em_conn_update_status
update_status-keeps b c s v = ground arith

clear_elements-IsDown :
    (c : Connection)
    → let d = clear_elements (close_websocket (drop_pipeline (cancel_request c))) in
      IsDown d × IsKept c d
unfolding clear_elements close_websocket drop_pipeline cancel_request
clear_elements-IsDown c = ground arith

-- Whatever state a connection is in, a disconnect drops the cancellable, the websocket, the pipeline,
-- the webrtcbin and the data channel, sets the status that it is given, and leaves the ENet host, peer,
-- thread and packet queue, the address and the clock offset as they were.
pub disconnect_internal_clears :
    (c : Connection) (s : Status)
    → let d = em_conn_disconnect_internal c s in IsDown d × (d.status ≡ s) × IsKept c d
unfolding em_conn_disconnect_internal
disconnect_internal_clears c s =
    let d = clear_elements (close_websocket (drop_pipeline (cancel_request c))) in
    let (down, kept) = update_status-keeps c d s (clear_elements-IsDown c) in
    (down, status-em_conn_update_status d s, kept)

pub IsDown-disconnect :
    (c : Connection) (s : Status) → IsDown c → c.status ≡ s → em_conn_disconnect_internal c s ≡ c
unfolding em_conn_disconnect_internal clear_elements close_websocket drop_pipeline cancel_request
    em_conn_update_status
IsDown-disconnect c s v e = ground arith

-- A second disconnect with the same status changes nothing and makes no call.
pub disconnect_internal_idem :
    (c : Connection) (s : Status)
    → em_conn_disconnect_internal (em_conn_disconnect_internal c s) s
      ≡ em_conn_disconnect_internal c s
disconnect_internal_idem c s =
    let (down, status, _) = disconnect_internal_clears c s in
    IsDown-disconnect (em_conn_disconnect_internal c s) s down status

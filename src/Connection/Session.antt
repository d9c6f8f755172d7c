-- ===== src/Connection/Session.antt =====
-- client/src/em/em_connection.c: a connection's life as a relation between states. The main loop and the
-- application choose which callback or call comes next, and what the libraries return to it.
use Prim.Native.String.{String}
use electric_maple.Common.{
  ℕ, ◌+◌, ◌-◌, ◌<◌, ◌≡◌, ap, ◌∙◌, ◌≢◌, Bool, true, false, Option, none, some, List, arith, is_some,
}
use electric_maple.Connection.{
  Connection, Status, em_connection_disconnect, em_conn_disconnect_internal,
  em_conn_data_channel_error_cb, em_conn_data_channel_close_cb, em_connection_init,
  em_connection_set_property, ok, fault,
}
use electric_maple.Connection.Setup.{
  ConnectEnv, em_connection_new, em_connection_connect, em_conn_websocket_connected_cb,
  em_conn_webrtc_on_data_channel_cb,
}
use electric_maple.Connection.Send.{
  EnetEvent, em_connection_send_bytes, em_connection_send_bytes_via_enet, enet_round,
}
use electric_maple.Connection.Clock.{emconn_data_channel_message_data_cb}
use electric_maple.Connection.Teardown.{disconnect_internal_clears}
use electric_maple.Connection.Linked.{
  IsLinked, disconnect-IsLinked, connect-IsLinked, finished-IsLinked, failed-IsLinked,
  opened-IsLinked, message-IsLinked, send-IsLinked, enet_round-IsLinked, finished-queue,
  failed-queue,
}

-- A connection with the connection attempts whose callback has not run yet.
pub record Session : Type 0 where
  pub conn : Connection
  pub pending : ℕ

-- One call or callback. A callback for a finished attempt needs an attempt that is pending, and gets a
-- connection or an error; a data channel opens on a webrtcbin, under USE_WEBRTC.
pub data Step (w : Bool) (s : Session) : Session → Type 0 where
  connects :
      (env : ConnectEnv) (d : Connection)
      → em_connection_connect env s.conn ≡ ok d
      → Step w s (record { conn = d; pending = s.pending + 1 })
  finishes :
      (k : ℕ) (provided : Option (ℕ × Option ℕ)) (d : Connection)
      → 0 < s.pending
      → em_conn_websocket_connected_cb w (some k) false provided s.conn ≡ ok d
      → Step w s (record { conn = d; pending = s.pending - 1 })
  fails :
      (provided : Option (ℕ × Option ℕ)) (d : Connection)
      → 0 < s.pending
      → em_conn_websocket_connected_cb w none true provided s.conn ≡ ok d
      → Step w s (record { conn = d; pending = s.pending - 1 })
  disconnects : Step w s (record s { conn = em_connection_disconnect s.conn })
  opens :
      (k : ℕ) (d : Connection)
      → w ≡ true
      → is_some s.conn.webrtcbin ≡ true
      → em_conn_webrtc_on_data_channel_cb k s.conn ≡ ok d
      → Step w s (record s { conn = d })
  errs : Step w s (record s { conn = em_conn_data_channel_error_cb s.conn })
  closes : Step w s (record s { conn = em_conn_data_channel_close_cb s.conn })
  messages :
      (now : ℕ) (bytes : List ℕ)
      → Step w s (record s { conn = emconn_data_channel_message_data_cb now bytes s.conn })
  sends :
      (bytes : List ℕ) (packet : Option ℕ) (sent b : Bool) (d : Connection)
      → em_connection_send_bytes w bytes packet sent s.conn ≡ ok (b, d)
      → Step w s (record s { conn = d })
  rounds :
      (accepts : ℕ → Bool) (events : List EnetEvent)
      → Step w s (record s { conn = enet_round accepts events s.conn })

pub data Reach (w : Bool) (s : Session) : Session → Type 0 where
  here : Reach w s s
  next : {t u : Session} → Reach w s t → Step w t u → Reach w s u

-- The invariant: an attempt that is pending has its packet queue.
pub record IsSound (w : Bool) (s : Session) : Type 0 where
  pub linked : IsLinked w s.conn
  pub prepared : 0 < s.pending → is_some s.conn.packet_queue ≡ true

disconnected-IsSound :
    (w : Bool) (c : Connection) (n : ℕ) (s : Status)
    → s ≢ Status.connected
    → (0 < n → is_some c.packet_queue ≡ true)
    → IsSound w (record { conn = em_conn_disconnect_internal c s; pending = n })
disconnected-IsSound w c n s ne p = record {
  linked = disconnect-IsLinked w c s ne;
  prepared = λ h. ap is_some (disconnect_internal_clears c s).2.queue ∙ p h;
}

Step-IsSound : {w : Bool} {s t : Session} → IsSound w s → Step w s t → IsSound w t
unfolding em_connection_disconnect em_conn_data_channel_error_cb em_conn_data_channel_close_cb
Step-IsSound {w} {s} v (connects env d e) =
    let (l, q) = connect-IsLinked w env s.conn d e in record { linked = l; prepared = λ _. q }
Step-IsSound {w} {s} v (finishes k provided d h e) = record {
  linked = finished-IsLinked w k provided s.conn d v.linked (v.prepared h) e;
  prepared = λ _. ap is_some (finished-queue w k provided s.conn d e) ∙ v.prepared h;
}
Step-IsSound {w} {s} v (fails provided d h e) = record {
  linked = failed-IsLinked w provided s.conn d v.linked e;
  prepared = λ _. ap is_some (failed-queue w provided s.conn d e) ∙ v.prepared h;
}
Step-IsSound {w} {s} v disconnects =
    disconnected-IsSound w s.conn s.pending Status.idle_not_connected (λ e. cc) v.prepared
Step-IsSound {w} {s} v (opens k d e b o) =
    let (l, q) = opened-IsLinked w k s.conn d e v.linked b o in
    record { linked = l; prepared = λ h. ap is_some q ∙ v.prepared h }
Step-IsSound {w} {s} v errs =
    disconnected-IsSound w s.conn s.pending Status.disconnected_error (λ e. cc) v.prepared
Step-IsSound {w} {s} v closes =
    disconnected-IsSound w s.conn s.pending Status.disconnected_remote_close (λ e. cc) v.prepared
Step-IsSound {w} {s} v (messages now bytes) =
    let (l, q) = message-IsLinked w now bytes s.conn v.linked in
    record { linked = l; prepared = λ h. ap is_some q ∙ v.prepared h }
Step-IsSound {w} {s} v (sends bytes packet sent b d e) = record {
  linked = (send-IsLinked w bytes packet sent b s.conn d v.linked e).0;
  prepared = λ h. (send-IsLinked w bytes packet sent b s.conn d v.linked e).1 (v.prepared h);
}
Step-IsSound {w} {s} v (rounds accepts events) = record {
  linked = (enet_round-IsLinked w accepts events s.conn v.linked).0;
  prepared = λ h. (enet_round-IsLinked w accepts events s.conn v.linked).1 (v.prepared h);
}

pub Reach-IsSound : {w : Bool} {s t : Session} → IsSound w s → Reach w s t → IsSound w t
Reach-IsSound v here = v
Reach-IsSound v (next r st) = Step-IsSound (Reach-IsSound v r) st

-- Sending on a connection that has what its status needs meets no null pointer.
send-linked :
    (w : Bool) (bytes : List ℕ) (packet : Option ℕ) (sent : Bool) (c : Connection)
    → IsLinked w c
    → em_connection_send_bytes w bytes packet sent c ≢ fault
unfolding em_connection_send_bytes em_connection_send_bytes_via_enet
send-linked true bytes packet sent c v = ground arith
send-linked false bytes packet sent c v = ground arith

pub new-IsSound :
    (w : Bool) (initialized : Bool) (cancellable : ℕ) (ready : Bool) (uri : String) (c : Connection)
    → em_connection_new initialized cancellable ready uri ≡ ok c
    → IsSound w (record { conn = c; pending = 0 })
unfolding em_connection_new em_connection_init em_connection_set_property
new-IsSound w initialized cancellable ready uri c e = ground arith

-- In every state that a new connection can reach, `em_connection_send_bytes` meets no null data channel
-- and no null packet queue, in either build.
pub send_never_faults :
    (w : Bool) (initialized : Bool) (cancellable : ℕ) (ready : Bool) (uri : String) (c : Connection)
    (t : Session) (bytes : List ℕ) (packet : Option ℕ) (sent : Bool)
    → em_connection_new initialized cancellable ready uri ≡ ok c
    → Reach w (record { conn = c; pending = 0 }) t
    → em_connection_send_bytes w bytes packet sent t.conn ≢ fault
send_never_faults w initialized cancellable ready uri c t bytes packet sent e r =
    send-linked w bytes packet sent t.conn
      (Reach-IsSound (new-IsSound w initialized cancellable ready uri c e) r).linked

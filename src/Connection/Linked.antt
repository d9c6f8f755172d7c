-- ===== src/Connection/Linked.antt =====
-- client/src/em/em_connection.c: what a connection needs for its status, kept by each call and callback.
use electric_maple.Common.{
  ℕ, ◌≡◌, refl, sym, ap, subst, ◌∙◌, ◌≢◌, ◌⊎◌, inl, inr, Bool, true, false, Option, none, some,
  List, ◌∷◌, arith, is_some, if◌then◌else◌, Option-cases,
}
use electric_maple.Connection.{
  Connection, Call, set_state, playing, emit, on_need_pipeline, Status, em_conn_update_status,
  em_conn_disconnect_internal, em_connection_disconnect, Outcome, ok,
}
use electric_maple.Connection.Setup.{
  ConnectEnv, em_connection_connect, renew_cancel, request, start_enet,
  em_conn_websocket_connected_cb, em_conn_webrtc_on_data_channel_cb, em_connection_set_pipeline,
  attach_webrtcbin, open_pipeline, handle_need, play_pipeline, adopt_websocket, announce_websocket,
  fail_websocket, play_after,
}
use electric_maple.Connection.Send.{
  EnetEvent, em_connection_send_bytes, em_connection_send_bytes_via_enet, enet_round,
}
use electric_maple.Connection.Clock.{emconn_data_channel_message_data_cb}
use electric_maple.Connection.Teardown.{disconnect_internal_clears}

abbrev pub link : Bool → Connection → Option ℕ
link w c = if w then c.datachannel else c.ws

-- What a connection needs to have in the states that it can reach.
pub record IsLinked (use_webrtc : Bool) (c : Connection) : Type 0 where
  pub has_link : c.status ≡ Status.connected → is_some (link use_webrtc c) ≡ true
  pub has_pipeline : c.status ≡ Status.connected → is_some c.pipeline ≡ true
  pub has_queue : is_some c.ws ≡ true → is_some c.packet_queue ≡ true
  pub bin_pipeline : is_some c.webrtcbin ≡ true → is_some c.pipeline ≡ true
  pub no_channel : use_webrtc ≡ false → c.datachannel ≡ none

pub disconnect-IsLinked :
    (w : Bool) (c : Connection) (s : Status)
    → s ≢ Status.connected
    → IsLinked w (em_conn_disconnect_internal c s)
disconnect-IsLinked w c s n = ground (arith, disconnect_internal_clears c s)

pub connect-IsLinked :
    (w : Bool) (env : ConnectEnv) (c d : Connection)
    → em_connection_connect env c ≡ ok d
    → IsLinked w d × (is_some d.packet_queue ≡ true)
unfolding em_connection_connect em_connection_disconnect renew_cancel request start_enet
    em_conn_update_status
connect-IsLinked w env c d e =
    ground (arith, disconnect_internal_clears c Status.idle_not_connected)

set_pipeline-IsLinked :
    (w : Bool) (b : Option ℕ) (p : ℕ) (c d : Connection)
    → em_connection_set_pipeline w b p c ≡ ok d
    → c.status ≢ Status.connected ⊎ (is_some (link w c) ≡ true)
    → (is_some c.ws ≡ true → is_some c.packet_queue ≡ true)
    → (w ≡ false → c.datachannel ≡ none)
    → IsLinked w d
unfolding em_connection_set_pipeline attach_webrtcbin em_conn_update_status
set_pipeline-IsLinked w b p c d e l q n = ground arith

calls_irrelevant :
    (w : Bool) (c : Connection) (cs : List Call)
    → IsLinked w c
    → IsLinked w (record c { calls = cs })
calls_irrelevant true c cs v = ground arith
calls_irrelevant false c cs v = ground arith

play_pipeline-none :
    (c : Connection) → c.pipeline ≡ none → play_pipeline c ≡ em_connection_disconnect c
unfolding play_pipeline
play_pipeline-none c e = ground arith

play_pipeline-some :
    (c : Connection) (p : ℕ)
    → c.pipeline ≡ some p
    → play_pipeline c ≡ record c { calls = set_state p playing ∷ c.calls }
unfolding play_pipeline
play_pipeline-some c p e = ground arith

play_pipeline-IsLinked :
    (w : Bool) (c : Connection)
    → (is_some c.pipeline ≡ true → IsLinked w c)
    → IsLinked w (play_pipeline c)
unfolding em_connection_disconnect
play_pipeline-IsLinked w c v = elim (Option-cases c.pipeline) [
  | inl e ↦
      subst (IsLinked w) (sym (play_pipeline-none c e))
        (disconnect-IsLinked w c Status.idle_not_connected (λ x. cc))
  | inr (p, e) ↦
      subst (IsLinked w) (sym (play_pipeline-some c p e))
        (calls_irrelevant w c (set_state p playing ∷ c.calls) (v (ap is_some e)))
]

Unset : Bool → Connection → Type 0
Unset w c = (c.status ≢ Status.connected) ⊎ (is_some (link w c) ≡ true)

handle_need-IsLinked :
    (w : Bool) (provided : Option (ℕ × Option ℕ)) (c d : Connection)
    → handle_need w provided c ≡ ok d
    → is_some c.packet_queue ≡ true
    → c.pipeline ≡ none
    → (w ≡ false → c.datachannel ≡ none)
    → Unset w c
    → is_some d.pipeline ≡ true
    → IsLinked w d
unfolding handle_need Unset
handle_need-IsLinked w none c d e q n k u h = ground arith
handle_need-IsLinked w (some (p, b)) c d e q n k u h =
    set_pipeline-IsLinked w b p c d e u (λ _. q) k

-- A pipeline that opens was not there before, and is started once the handler has handed it over.
pub open_pipeline-ok :
    (w : Bool) (provided : Option (ℕ × Option ℕ)) (c d : Connection)
    → open_pipeline w provided c ≡ ok d
    → (c.pipeline ≡ none)
      × (play_after (handle_need w provided (record c { calls = emit on_need_pipeline ∷ c.calls }))
          ≡ ok d)
unfolding open_pipeline
open_pipeline-ok w provided c d e = ground arith

pub play_after-ok :
    (m : Outcome Connection) (d : Connection)
    → play_after m ≡ ok d
    → (b : Connection) × (m ≡ ok b) × (play_pipeline b ≡ d)
unfolding play_after
play_after-ok (ok b) d e = (b, refl, cc)
play_after-ok _ d e = cc

open_pipeline-IsLinked :
    (w : Bool) (provided : Option (ℕ × Option ℕ)) (c d : Connection)
    → open_pipeline w provided c ≡ ok d
    → is_some c.packet_queue ≡ true
    → (w ≡ false → c.datachannel ≡ none)
    → (c.pipeline ≡ none → Unset w c)
    → IsLinked w d
unfolding Unset
open_pipeline-IsLinked w provided c d e q k u =
    let c0 : Connection = record c { calls = emit on_need_pipeline ∷ c.calls } in
    let (n, e') = open_pipeline-ok w provided c d e in
    let (b, eb, ed) = play_after-ok (handle_need w provided c0) d e' in
    subst (IsLinked w) ed
      (play_pipeline-IsLinked w b (handle_need-IsLinked w provided c0 b eb q n k (u n)))

-- What is announced when the websocket is there.
abbrev announced : Bool → ℕ → Connection → Connection
announced w k c = announce_websocket w (adopt_websocket (some k) c)

connected_cb-ok :
    (w : Bool) (k : ℕ) (provided : Option (ℕ × Option ℕ)) (c d : Connection)
    → em_conn_websocket_connected_cb w (some k) false provided c ≡ ok d
    → open_pipeline w provided (announced w k c) ≡ ok d
unfolding em_conn_websocket_connected_cb
connected_cb-ok w k provided c d e = ground arith

announced-Unset :
    (w : Bool) (k : ℕ) (c : Connection)
    → IsLinked w c
    → (announced w k c).pipeline ≡ none
    → Unset w (announced w k c)
unfolding Unset announce_websocket adopt_websocket
announced-Unset true k c v n = inl (λ e. cc (v.has_pipeline e))
announced-Unset false k c v n = inr refl

pub finished-IsLinked :
    (w : Bool) (k : ℕ) (provided : Option (ℕ × Option ℕ)) (c d : Connection)
    → IsLinked w c
    → is_some c.packet_queue ≡ true
    → em_conn_websocket_connected_cb w (some k) false provided c ≡ ok d
    → IsLinked w d
unfolding announce_websocket adopt_websocket
finished-IsLinked w k provided c d v q e =
    open_pipeline-IsLinked w provided (announced w k c) d (connected_cb-ok w k provided c d e) q
      v.no_channel (announced-Unset w k c v)

pub failed-IsLinked :
    (w : Bool) (provided : Option (ℕ × Option ℕ)) (c d : Connection)
    → IsLinked w c
    → em_conn_websocket_connected_cb w none true provided c ≡ ok d
    → IsLinked w d
unfolding em_conn_websocket_connected_cb adopt_websocket fail_websocket em_conn_update_status
failed-IsLinked w provided c d v e = ground arith

pub opened-IsLinked :
    (w : Bool) (k : ℕ) (c d : Connection)
    → w ≡ true
    → IsLinked w c
    → is_some c.webrtcbin ≡ true
    → em_conn_webrtc_on_data_channel_cb k c ≡ ok d
    → IsLinked w d × (d.packet_queue ≡ c.packet_queue)
unfolding em_conn_webrtc_on_data_channel_cb em_conn_update_status
opened-IsLinked true k c d t v b e = ground arith
opened-IsLinked false k c d t v b e = cc

pub message-IsLinked :
    (w : Bool) (now : ℕ) (bytes : List ℕ) (c : Connection)
    → IsLinked w c
    → IsLinked w (emconn_data_channel_message_data_cb now bytes c)
      × ((emconn_data_channel_message_data_cb now bytes c).packet_queue ≡ c.packet_queue)
unfolding emconn_data_channel_message_data_cb
message-IsLinked w now bytes c v = ground arith

pub send-IsLinked :
    (w : Bool) (bytes : List ℕ) (packet : Option ℕ) (sent b : Bool) (c d : Connection)
    → IsLinked w c
    → em_connection_send_bytes w bytes packet sent c ≡ ok (b, d)
    → IsLinked w d × (is_some c.packet_queue ≡ true → is_some d.packet_queue ≡ true)
unfolding em_connection_send_bytes em_connection_send_bytes_via_enet
send-IsLinked w bytes packet sent b c d v e = ground arith

pub enet_round-IsLinked :
    (w : Bool) (accepts : ℕ → Bool) (events : List EnetEvent) (c : Connection)
    → IsLinked w c
    → IsLinked w (enet_round accepts events c)
      × (is_some c.packet_queue ≡ true → is_some (enet_round accepts events c).packet_queue ≡ true)
unfolding enet_round
enet_round-IsLinked w accepts events c v = ground arith

handle_need-queue :
    (w : Bool) (provided : Option (ℕ × Option ℕ)) (c d : Connection)
    → handle_need w provided c ≡ ok d
    → d.packet_queue ≡ c.packet_queue
unfolding handle_need em_connection_set_pipeline attach_webrtcbin em_conn_update_status
handle_need-queue w none c d e = ground arith
handle_need-queue w (some (p, b)) c d e = ground arith

play_pipeline-queue : (c : Connection) → (play_pipeline c).packet_queue ≡ c.packet_queue
unfolding play_pipeline em_connection_disconnect
play_pipeline-queue c = ground (arith, disconnect_internal_clears c Status.idle_not_connected)

pub finished-queue :
    (w : Bool) (k : ℕ) (provided : Option (ℕ × Option ℕ)) (c d : Connection)
    → em_conn_websocket_connected_cb w (some k) false provided c ≡ ok d
    → d.packet_queue ≡ c.packet_queue
unfolding announce_websocket adopt_websocket
finished-queue w k provided c d e =
    let c0 : Connection = record (announced w k c) {
      calls = emit on_need_pipeline ∷ (announced w k c).calls;
    } in
    let (_, e') =
      open_pipeline-ok w provided (announced w k c) d (connected_cb-ok w k provided c d e) in
    let (b, eb, ed) = play_after-ok (handle_need w provided c0) d e' in
    ap (λ (x : Connection). x.packet_queue) (sym ed)
    ∙ play_pipeline-queue b
    ∙ handle_need-queue w provided c0 b eb

pub failed-queue :
    (w : Bool) (provided : Option (ℕ × Option ℕ)) (c d : Connection)
    → em_conn_websocket_connected_cb w none true provided c ≡ ok d
    → d.packet_queue ≡ c.packet_queue
unfolding em_conn_websocket_connected_cb adopt_websocket fail_websocket em_conn_update_status
failed-queue w provided c d e = ground arith

-- ===== src/Connection/References.antt =====
-- client/src/em/em_connection.c: the references that the connection takes and drops, counted per object.
use electric_maple.Common.{
  ℕ, ◌+◌, ◌≡◌, refl, subst, ◌∙◌, inl, inr, Bool-cases, Option-cases, Bool, false, true, Option,
  none, some, List, [], ◌∷◌, arith, ◌==◌, if◌then◌else◌,
}
use electric_maple.Connection.Send.{
  EnetEvent, receive, handle_enet_event, handle_events, send_queued, enet_round,
  em_connection_send_bytes, em_connection_send_bytes_via_enet, queued,
}
use electric_maple.Connection.Clock.{emconn_data_channel_message_data_cb}
use electric_maple.Connection.Linked.{open_pipeline-ok, play_after-ok}
use electric_maple.Connection.{
  Connection, Call, peer_send, packet_destroy, host_flush, acquire, message_new, transfer, release,
  emit, on_need_pipeline, Status, em_conn_update_status, em_conn_disconnect_internal,
  cancel_request, drop_pipeline, close_websocket, clear_elements, em_connection_disconnect, ok,
}
use electric_maple.Connection.Setup.{
  ConnectEnv, em_connection_connect, em_conn_websocket_connected_cb, renew_cancel, request,
  new_message, start_enet, handle_need, em_connection_set_pipeline, stop_pipeline, play_pipeline,
  fail_websocket, adopt_websocket, announce_websocket, open_pipeline,
}

pub hit : ℕ → ℕ → ℕ
hit h k = if k == h then 1 else 0

-- How often the code took or was given a reference to `h`, and how often it dropped one.
abbrev pub taken : ℕ → List Call → ℕ
taken h [] = 0
taken h (acquire k ∷ cs) = hit h k + taken h cs
taken h (message_new k ∷ cs) = hit h k + taken h cs
taken h (transfer k ∷ cs) = hit h k + taken h cs
taken h (_ ∷ cs) = taken h cs

abbrev pub dropped : ℕ → List Call → ℕ
dropped h [] = 0
dropped h (release k ∷ cs) = hit h k + dropped h cs
dropped h (_ ∷ cs) = dropped h cs

-- The references that came with the messages of the requests and with the websockets.
abbrev pub came_along : ℕ → List Call → ℕ
came_along h [] = 0
came_along h (message_new k ∷ cs) = hit h k + came_along h cs
came_along h (transfer k ∷ cs) = hit h k + came_along h cs
came_along h (_ ∷ cs) = came_along h cs

abbrev pub at : ℕ → Option ℕ → ℕ
at h none = 0
at h (some k) = hit h k

abbrev pub held : ℕ → Connection → ℕ
held h c = at h c.ws_cancel + at h c.ws + at h c.pipeline + at h c.webrtcbin

-- Every reference to `h` was dropped once, or a field still holds it, or it came along and stays for good.
abbrev pub IsBalanced : ℕ → Connection → Type 0
IsBalanced h c = taken h c.calls ≡ dropped h c.calls + held h c + came_along h c.calls

update_status-IsBalanced :
    (h : ℕ) (c : Connection) (s : Status)
    → IsBalanced h c
    → IsBalanced h (em_conn_update_status c s)
unfolding em_conn_update_status
update_status-IsBalanced h c s b = ground arith

cancel_request-IsBalanced :
    (h : ℕ) (c : Connection) → IsBalanced h c → IsBalanced h (cancel_request c)
unfolding cancel_request
cancel_request-IsBalanced h c b = ground arith

drop_pipeline-IsBalanced :
    (h : ℕ) (c : Connection) → IsBalanced h c → IsBalanced h (drop_pipeline c)
unfolding drop_pipeline
drop_pipeline-IsBalanced h c b = ground arith

close_websocket-IsBalanced :
    (h : ℕ) (c : Connection) → IsBalanced h c → IsBalanced h (close_websocket c)
unfolding close_websocket
close_websocket-IsBalanced h c b = ground arith

clear_elements-IsBalanced :
    (h : ℕ) (c : Connection)
    → c.datachannel ≡ none
    → IsBalanced h c
    → IsBalanced h (clear_elements c)
unfolding clear_elements
clear_elements-IsBalanced h c d b = ground arith

channel_kept :
    (c : Connection)
    → c.datachannel ≡ none
    → (close_websocket (drop_pipeline (cancel_request c))).datachannel ≡ none
unfolding close_websocket drop_pipeline cancel_request
channel_kept c d = ground arith

pub disconnect_internal-IsBalanced :
    (h : ℕ) (c : Connection) (s : Status)
    → c.datachannel ≡ none
    → IsBalanced h c
    → IsBalanced h (em_conn_disconnect_internal c s)
unfolding em_conn_disconnect_internal
disconnect_internal-IsBalanced h c s d b =
    let c1 : Connection = cancel_request c in
    let c2 : Connection = drop_pipeline c1 in
    let c3 : Connection = close_websocket c2 in
    update_status-IsBalanced h (clear_elements c3) s (
      clear_elements-IsBalanced h c3 (channel_kept c d) (
        close_websocket-IsBalanced h c2
          (drop_pipeline-IsBalanced h c1 (cancel_request-IsBalanced h c b))))

came_along-cancel :
    (h : ℕ) (c : Connection) → came_along h (cancel_request c).calls ≡ came_along h c.calls
unfolding cancel_request
came_along-cancel h c = ground arith

came_along-drop :
    (h : ℕ) (c : Connection) → came_along h (drop_pipeline c).calls ≡ came_along h c.calls
unfolding drop_pipeline
came_along-drop h c = ground arith

came_along-close :
    (h : ℕ) (c : Connection) → came_along h (close_websocket c).calls ≡ came_along h c.calls
unfolding close_websocket
came_along-close h c = ground arith

came_along-elements :
    (h : ℕ) (c : Connection) → came_along h (clear_elements c).calls ≡ came_along h c.calls
unfolding clear_elements
came_along-elements h c = ground arith

-- A disconnect takes nothing.
pub came_along-disconnect :
    (h : ℕ) (c : Connection) (s : Status)
    → came_along h (em_conn_disconnect_internal c s).calls ≡ came_along h c.calls
unfolding em_conn_disconnect_internal em_conn_update_status
came_along-disconnect h c s =
    let c1 : Connection = cancel_request c in
    let c2 : Connection = drop_pipeline c1 in
    let c3 : Connection = close_websocket c2 in
    ground (
      arith,
      came_along-elements h c3,
      came_along-close h c2,
      came_along-drop h c1,
      came_along-cancel h c,
    )

calls_only :
    (h : ℕ) (env : ConnectEnv) (c : Connection)
    → IsBalanced h c
    → IsBalanced h (request env (renew_cancel env c))
unfolding renew_cancel request new_message em_conn_update_status
calls_only h env c b = ground arith

start_enet-IsBalanced :
    (h : ℕ) (env : ConnectEnv) (c d : Connection)
    → start_enet env c ≡ ok d
    → IsBalanced h c
    → IsBalanced h d
unfolding start_enet
start_enet-IsBalanced h env c d e b = ground arith

-- Connecting again drops what the last attempt held, before it takes anything new.
pub connect-IsBalanced :
    (h : ℕ) (env : ConnectEnv) (c d : Connection)
    → em_connection_connect env c ≡ ok d
    → c.datachannel ≡ none
    → IsBalanced h c
    → IsBalanced h d
unfolding em_connection_connect em_connection_disconnect
connect-IsBalanced h env c d e n b =
    let c1 : Connection = em_conn_disconnect_internal c Status.idle_not_connected in
    start_enet-IsBalanced h env (request env (renew_cancel env c1)) d e
      (calls_only h env c1 (disconnect_internal-IsBalanced h c Status.idle_not_connected n b))

handle_need-IsBalanced :
    (h : ℕ) (provided : Option (ℕ × Option ℕ)) (c d : Connection)
    → handle_need false provided c ≡ ok d
    → IsBalanced h c
    → IsBalanced h d × (d.datachannel ≡ c.datachannel)
unfolding handle_need em_connection_set_pipeline stop_pipeline
handle_need-IsBalanced h none c d e b = ground arith
handle_need-IsBalanced h (some (p, w)) c d e b = ground arith

play_pipeline-IsBalanced :
    (h : ℕ) (c : Connection)
    → c.datachannel ≡ none
    → IsBalanced h c
    → IsBalanced h (play_pipeline c)
unfolding play_pipeline em_connection_disconnect
play_pipeline-IsBalanced h c n b =
    ground (arith, disconnect_internal-IsBalanced h c Status.idle_not_connected n b)

announce-IsBalanced :
    (h : ℕ) (conn : Option ℕ) (c : Connection)
    → c.ws ≡ none
    → IsBalanced h c
    → IsBalanced h (fail_websocket (adopt_websocket conn c))
      × (let d = announce_websocket false (adopt_websocket conn c) in
          IsBalanced h (record d { calls = emit on_need_pipeline ∷ d.calls })
          × (d.datachannel ≡ c.datachannel))
unfolding fail_websocket adopt_websocket announce_websocket em_conn_update_status
announce-IsBalanced h none c n b = ground arith
announce-IsBalanced h (some w) c n b = ground arith

failed_cb :
    (conn : Option ℕ) (provided : Option (ℕ × Option ℕ)) (c d : Connection)
    → em_conn_websocket_connected_cb false conn true provided c ≡ ok d
    → (c.ws ≡ none) × (fail_websocket (adopt_websocket conn c) ≡ d)
unfolding em_conn_websocket_connected_cb
failed_cb conn provided c d e = ground arith

finished_cb :
    (conn : Option ℕ) (provided : Option (ℕ × Option ℕ)) (c d : Connection)
    → em_conn_websocket_connected_cb false conn false provided c ≡ ok d
    → (c.ws ≡ none)
      × (open_pipeline false provided (announce_websocket false (adopt_websocket conn c)) ≡ ok d)
unfolding em_conn_websocket_connected_cb
finished_cb conn provided c d e = ground arith

pub connected_cb-IsBalanced :
    (h : ℕ) (conn : Option ℕ) (error : Bool) (provided : Option (ℕ × Option ℕ)) (c d : Connection)
    → em_conn_websocket_connected_cb false conn error provided c ≡ ok d
    → c.datachannel ≡ none
    → IsBalanced h c
    → IsBalanced h d
connected_cb-IsBalanced h conn true provided c d e n b =
    let (ws, eq) = failed_cb conn provided c d e in
    subst (IsBalanced h) eq (announce-IsBalanced h conn c ws b).0
connected_cb-IsBalanced h conn false provided c d e n b =
    let (ws, e1) = finished_cb conn provided c d e in
    let c1 : Connection = announce_websocket false (adopt_websocket conn c) in
    let c2 : Connection = record c1 { calls = emit on_need_pipeline ∷ c1.calls } in
    let (_, e2) = open_pipeline-ok false provided c1 d e1 in
    let (f, ef, ed) = play_after-ok (handle_need false provided c2) d e2 in
    let (b2, n2) = (announce-IsBalanced h conn c ws b).1 in
    let (bf, nf) = handle_need-IsBalanced h provided c2 f ef b2 in
    subst (IsBalanced h) ed (play_pipeline-IsBalanced h f (nf ∙ n2 ∙ n) bf)

taken-send_queued :
    (h : ℕ) (accepts : ℕ → Bool) (peer : Option ℕ) (q : List ℕ) (cs : List Call)
    → (taken h (send_queued accepts peer q cs) ≡ taken h cs)
      × (dropped h (send_queued accepts peer q cs) ≡ dropped h cs)
      × (came_along h (send_queued accepts peer q cs) ≡ came_along h cs)
unfolding send_queued
taken-send_queued h accepts peer [] cs = (refl, refl, refl)
taken-send_queued h accepts peer (p ∷ q) cs = elim (Bool-cases (accepts p)) [
  | inl e ↦ rw e (taken-send_queued h accepts peer q (peer_send peer p true ∷ cs))
  | inr e ↦
      rw e (taken-send_queued h accepts peer q (packet_destroy p ∷ peer_send peer p false ∷ cs))
]

taken-handle_events :
    (h : ℕ) (es : List EnetEvent) (cs : List Call)
    → (taken h (handle_events es cs) ≡ taken h cs)
      × (dropped h (handle_events es cs) ≡ dropped h cs)
      × (came_along h (handle_events es cs) ≡ came_along h cs)
unfolding handle_events handle_enet_event
taken-handle_events h [] cs = (refl, refl, refl)
taken-handle_events h (receive p ∷ es) cs = taken-handle_events h es (packet_destroy p ∷ cs)
taken-handle_events h (_ ∷ es) cs = taken-handle_events h es cs

enet_calls :
    (h : ℕ) (accepts : ℕ → Bool) (events : List EnetEvent) (peer : Option ℕ) (host : ℕ) (q : List ℕ)
    (cs : List Call)
    → let ds = handle_events events (host_flush host ∷ send_queued accepts peer q cs) in
      (taken h ds ≡ taken h cs)
      × (dropped h ds ≡ dropped h cs)
      × (came_along h ds ≡ came_along h cs)
enet_calls h accepts events peer host q cs =
    let (t, d, a) =
      taken-handle_events h events (host_flush host ∷ send_queued accepts peer q cs) in
    let (t', d', a') = taken-send_queued h accepts peer q cs in (t ∙ t', d ∙ d', a ∙ a')

enet_round-calls :
    (h : ℕ) (accepts : ℕ → Bool) (events : List EnetEvent) (c : Connection)
    → (taken h (enet_round accepts events c).calls ≡ taken h c.calls)
      × (dropped h (enet_round accepts events c).calls ≡ dropped h c.calls)
      × (came_along h (enet_round accepts events c).calls ≡ came_along h c.calls)
      × (held h (enet_round accepts events c) ≡ held h c)
unfolding enet_round
enet_round-calls h accepts events c = elim (Bool-cases c.enet_running) [
  | inr r ↦ rw r (refl, refl, refl, refl)
  | inl r ↦ elim (Option-cases c.client) [
    | inl e ↦ rw (r, e) (refl, refl, refl, refl)
    | inr (host, e) ↦
        let (t, d, a) = enet_calls h accepts events c.peer host (queued c.packet_queue) c.calls in
        rw (r, e) (t, d, a, refl)
  ]
]

pub enet_round-IsBalanced :
    (h : ℕ) (accepts : ℕ → Bool) (events : List EnetEvent) (c : Connection)
    → IsBalanced h c
    → IsBalanced h (enet_round accepts events c)
enet_round-IsBalanced h accepts events c b =
    let (t, d, a, k) = enet_round-calls h accepts events c in omega arith

pub send-IsBalanced :
    (h : ℕ) (bytes : List ℕ) (packet : Option ℕ) (sent b : Bool) (c d : Connection)
    → em_connection_send_bytes false bytes packet sent c ≡ ok (b, d)
    → IsBalanced h c
    → IsBalanced h d
unfolding em_connection_send_bytes em_connection_send_bytes_via_enet
send-IsBalanced h bytes packet sent b c d e v = ground arith

pub message-IsBalanced :
    (h : ℕ) (now : ℕ) (bytes : List ℕ) (c : Connection)
    → IsBalanced h c
    → IsBalanced h (emconn_data_channel_message_data_cb now bytes c)
unfolding emconn_data_channel_message_data_cb
message-IsBalanced h now bytes c b = ground arith

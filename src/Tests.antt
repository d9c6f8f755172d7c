-- ===== src/Tests.antt =====
-- The theorems of the connection and of the signaling at concrete values.
pub mod Frames
pub mod Backend
pub mod Rendering
pub mod Devices
pub mod Commits
pub mod Lives
use Prim.Native.String.{String}
use electric_maple.Common.{
  ℕ, zero, suc, ◌+◌, ◌≡◌, ◌≢◌, refl, ◌↔◌, Bool, true, false, some, List, [], ◌∷◌, ◌++◌, arith, ◌<◌,
}
use electric_maple.Common.Int.{ℤ, pos}
use electric_maple.Connection.{
  Connection, em_connection_init, em_connection_set_property, em_connection_disconnect, ok, fault,
}
use electric_maple.Connection.Setup.{
  ConnectEnv, em_connection_new, em_connection_connect, start_enet, request, renew_cancel,
}
use electric_maple.Connection.Send.{em_connection_send_bytes, receive}
use electric_maple.Connection.Session.{Session, Reach, here, next, connects, send_never_faults}
use electric_maple.Connection.Enet.{
  destroyed, refused, arrived, Turn, push, round, take_turns, pushed, IsServing, handed, enet_fifo,
}
use electric_maple.Connection.Clock.{
  Messages, receive_all, reported, word_le, offset_between, em_connection_get_server_clock_offset,
  IsNearest, server_offset-IsNearest,
}
use electric_maple.Connection.Messages.{
  Sdp, add_ice_candidate, set_remote_description, create_answer, em_conn_webrtc_on_answer_created,
  em_conn_webrtc_on_ice_candidate_cb, em_conn_on_ws_message_cb,
}
use electric_maple.Json.Sample.{sample_json, Json}
use electric_maple.Signaling.{
  Server, open_state, slist_find, sdp_answer, candidate, ems_signaling_server_send_sdp_offer,
  ems_signaling_server_send_candidate, offer_message,
}
use electric_maple.Signaling.Handshake.{
  deliver_to_client, deliver_to_server, server_to_client, client_to_server,
}
use electric_maple.Signaling.Clients.{Change, opened, shut, run, tally, count, found_iff_open}
use electric_maple.TestClient.{
  message_cb, on_answer_created, webrtc_on_ice_candidate_cb, globals_of, same_as_headset,
}

abbrev uri : String
uri = "ws://192.168.1.5:52356/ws"

abbrev started : Connection
started = em_connection_set_property 1 uri (em_connection_init 7)

abbrev enet_up : ConnectEnv
enet_up = record {
  cancellable = 8;
  message = some 9;
  host = some 11;
  peer = some 12;
  started = true;
}

-- The connection after `em_connection_connect`.
abbrev asking : Connection
asking = record (request enet_up (renew_cancel enet_up (em_connection_disconnect started))) {
  client = some 11;
  peer = some 12;
  packet_queue = some [];
  enet_running = true;
}

abbrev fresh_session : Session
fresh_session = record { conn = started; pending = 0 }

abbrev asking_session : Session
asking_session = record { conn = asking; pending = 0 + 1 }

started_lem : em_connection_new true 7 true uri ≡ ok started
unfolding em_connection_new
started_lem = refl

asking_lem : em_connection_connect enet_up started ≡ ok asking
unfolding em_connection_connect start_enet
asking_lem = refl

asking-Reach : (w : Bool) → Reach w fresh_session asking_session
asking-Reach w = next here (connects enet_up asking asking_lem)

send_never_faults_example : em_connection_send_bytes true (1 ∷ 2 ∷ []) (some 20) true asking ≢ fault
send_never_faults_example =
    send_never_faults true true 7 true uri started asking_session (1 ∷ 2 ∷ []) (some 20) true
      started_lem (asking-Reach true)

asking-IsServing : IsServing asking
asking-IsServing = record { running = refl; has_host = refl; has_queue = refl }

-- The peer refuses packet 31.
abbrev accepts : ℕ → Bool
accepts p = elim p [ zero ↦ false | suc n ↦ true ]

abbrev turns : List Turn
turns = push 30 ∷ push 31 ∷ round accepts (receive 40 ∷ []) ∷ push 32 ∷ []

enet_fifo_example :
    (handed (take_turns turns asking) ≡ handed asking ++ pushed turns)
    × (destroyed 31 (take_turns turns asking).calls + refused 31 asking.calls
        ≡ destroyed 31 asking.calls + refused 31 (take_turns turns asking).calls + arrived 31 turns)
enet_fifo_example = enet_fifo 31 turns asking asking-IsServing

-- The server's clock reads 256, then 512, and a short message comes between.
abbrev clock_messages : Messages
clock_messages =
    (1000, 0 ∷ 1 ∷ 0 ∷ 0 ∷ 0 ∷ 0 ∷ 0 ∷ 0 ∷ [])
    ∷ (1100, 5 ∷ [])
    ∷ (1200, 0 ∷ 2 ∷ 0 ∷ 0 ∷ 0 ∷ 0 ∷ 0 ∷ 0 ∷ [])
    ∷ []

abbrev clock_reports : List ℤ
clock_reports = pos 744 ∷ pos 688 ∷ []

clock_reports_lem : reported clock_messages ≡ clock_reports
unfolding reported offset_between word_le
clock_reports_lem = refl

abbrev unset_offset : Connection
unset_offset = record asking { server_offset = pos 0 }

server_offset-IsNearest_example :
    IsNearest
      (em_connection_get_server_clock_offset (receive_all clock_messages unset_offset))
      (reported clock_messages)
unfolding reported offset_between word_le
server_offset-IsNearest_example =
    server_offset-IsNearest clock_messages unset_offset refl (λ e. ground arith)
      (ground arith, (ground arith, tt))

abbrev offer_text : Json
offer_text = sample_json.print (sample_json.object (offer_message sample_json "v=0"))

abbrev one_client : Server
one_client = record { websocket_connections = 5 ∷ 6 ∷ []; enet_host = true; enet_running = true }

abbrev any_sdp : Sdp
any_sdp = record { parses = λ _. true; describes = λ _. true }

found_lem : slist_find 6 (5 ∷ 6 ∷ []) ≡ true
unfolding slist_find
found_lem = refl

server_to_client_example :
    (deliver_to_client sample_json any_sdp asking
        (ems_signaling_server_send_sdp_offer sample_json one_client (λ _. open_state) 6 "v=0")
      ≡ set_remote_description asking.webrtcbin (some "v=0") ∷ create_answer asking.webrtcbin ∷ [])
    × (deliver_to_client sample_json any_sdp asking (
          ems_signaling_server_send_candidate sample_json one_client
            (λ _. open_state)
            6
            1
            "candidate:1")
        ≡ add_ice_candidate asking.webrtcbin 1 (some "candidate:1") ∷ [])
server_to_client_example =
    server_to_client sample_json one_client (λ _. open_state) 6 any_sdp asking "v=0" "candidate:1" 1
      found_lem refl (omega arith)

client_to_server_example :
    (deliver_to_server sample_json true 6
        (em_conn_webrtc_on_answer_created sample_json "v=0" asking)
      ≡ sdp_answer 6 (some "v=0") ∷ [])
    × (deliver_to_server sample_json true 6
          (em_conn_webrtc_on_ice_candidate_cb sample_json 1 "candidate:1" asking ∷ [])
        ≡ candidate 6 1 (some "candidate:1") ∷ [])
client_to_server_example =
    client_to_server sample_json true 6 asking "v=0" "candidate:1" 1 (omega arith)

abbrev changes : List Change
changes = opened 9 "10.0.0.2" ∷ opened 4 "10.0.0.3" ∷ shut 9 ∷ []

found_iff_open_example :
    (slist_find 9 (run Unit changes one_client).websocket_connections ≡ true)
    ↔ (0 < tally 9 changes (count 9 (5 ∷ 6 ∷ [])))
found_iff_open_example = found_iff_open Unit 9 changes one_client

same_as_headset_example :
    (message_cb sample_json any_sdp offer_text (globals_of sample_json asking)
      ≡ em_conn_on_ws_message_cb sample_json any_sdp offer_text asking)
    × (on_answer_created sample_json "v=0" (globals_of sample_json asking)
        ≡ em_conn_webrtc_on_answer_created sample_json "v=0" asking)
    × (webrtc_on_ice_candidate_cb sample_json 1 "candidate:1" (globals_of sample_json asking)
        ≡ em_conn_webrtc_on_ice_candidate_cb sample_json 1 "candidate:1" asking)
same_as_headset_example =
    same_as_headset sample_json any_sdp asking offer_text "v=0" "candidate:1" 1

-- ===== src/Connection/Send.antt =====
-- client/src/em/em_connection.c: sending bytes, and the ENet thread.
use electric_maple.Common.{
  ℕ, Bool, true, false, Option, none, some, List, [], ◌∷◌, ◌++◌, ◌==◌, if◌then◌else◌, not,
}
use electric_maple.Connection.{
  Connection, Status, status_code, Call, channel_send, peer_send, packet_destroy, host_flush,
  Outcome, ok, aborted, exited, fault,
}

-- `packet` is what `enet_packet_create` returns. GLib's asynchronous queue is the list of what it holds,
-- oldest first.
unfoldable pub em_connection_send_bytes_via_enet :
    Option ℕ → Connection → Outcome (Bool × Connection)
em_connection_send_bytes_via_enet packet c = elim packet [
  | none ↦ ok (false, c)
  | some p ↦ elim c.packet_queue [
    | none ↦ fault
    | some q ↦ ok (true, record c { packet_queue = some (q ++ (p ∷ [])) })
  ]
]

abbrev pub discard_result : Outcome (Bool × Connection) → Outcome (Bool × Connection)
discard_result (ok (_, c)) = ok (true, c)
discard_result aborted = aborted
discard_result exited = exited
discard_result fault = fault

-- `sent` is what `gst_webrtc_data_channel_send_data_full` returns.
unfoldable pub em_connection_send_bytes :
    Bool → List ℕ → Option ℕ → Bool → Connection → Outcome (Bool × Connection)
em_connection_send_bytes use_webrtc bytes packet sent c =
    if not (status_code c.status == status_code Status.connected)
    then ok (false, c)
    else if use_webrtc
    then elim c.datachannel [
      | none ↦ fault
      | some d ↦ ok (sent, record c { calls = channel_send d bytes ∷ c.calls })
    ]
    else discard_result (em_connection_send_bytes_via_enet packet c)

-- `ENetEvent`, of which only a received packet matters.
pub data EnetEvent : Type 0 where
  receive : ℕ → EnetEvent
  disconnect nothing connect disconnect_timeout : EnetEvent

unfoldable pub handle_enet_event : EnetEvent → List Call → List Call
handle_enet_event (receive p) cs = packet_destroy p ∷ cs
handle_enet_event disconnect cs = cs
handle_enet_event nothing cs = cs
handle_enet_event connect cs = cs
handle_enet_event disconnect_timeout cs = cs

-- The inner loop of `enet_thread_func` over the packets of the queue; `accepts` says whether
-- `enet_peer_send` returns 0.
unfoldable pub send_queued : (ℕ → Bool) → Option ℕ → List ℕ → List Call → List Call
send_queued accepts peer [] cs = cs
send_queued accepts peer (p ∷ q) cs = send_queued accepts peer q (
    if accepts p
    then peer_send peer p true ∷ cs
    else packet_destroy p ∷ peer_send peer p false ∷ cs)

-- The events that `enet_host_service` reports in one round, until it reports none.
unfoldable pub handle_events : List EnetEvent → List Call → List Call
handle_events [] cs = cs
handle_events (e ∷ es) cs = handle_events es (handle_enet_event e cs)

abbrev pub queued : Option (List ℕ) → List ℕ
queued none = []
queued (some q) = q

abbrev pub emptied : Option (List ℕ) → Option (List ℕ)
emptied none = none
emptied (some q) = some []

-- One round of `enet_thread_func`'s outer loop.
unfoldable pub enet_round : (ℕ → Bool) → List EnetEvent → Connection → Connection
enet_round accepts events c =
    if c.enet_running
    then elim c.client [
      | none ↦ c
      | some h ↦ record c {
        packet_queue = emptied c.packet_queue;
        calls =
            handle_events events
              (host_flush h ∷ send_queued accepts c.peer (queued c.packet_queue) c.calls);
      }
    ]
    else c

-- ===== src/Signaling/Handshake.antt =====
-- The signaling messages that em_connection.c and ems_signaling_server.c exchange, over any JSON library
-- that behaves as documented.
use Prim.Native.String.{String}
use electric_maple.Common.{
  ℕ, ◌^◌, ◌<◌, ◌≡◌, refl, ◌∙◌, ap, Bool, true, false, ◌&&◌, if◌then◌else◌, some, List, [], ◌∷◌,
  ◌++◌, arith,
}
use electric_maple.Connection.{Connection}
use electric_maple.Connection.Messages.{
  Action, Sdp, answer_message, candidate_message, candidate_body, add_ice_candidate,
  set_remote_description, create_answer, em_conn_send_sdp_answer, em_conn_webrtc_on_answer_created,
  em_conn_webrtc_on_ice_candidate_cb, em_conn_webrtc_process_sdp_offer,
  em_conn_webrtc_process_candidate, take_candidate, dispatch_message, em_conn_on_ws_message_cb,
  read_root, guint,
}
use electric_maple.Json.{JsonGlib, find}
use electric_maple.Signaling.{
  Server, SocketState, Event, sdp_answer, candidate, slist_find, open_state,
  send_to_websocket_client, offer_message, ems_signaling_server_send_sdp_offer,
  ems_signaling_server_send_candidate, dispatch_text, emit_candidate, read_text_root,
  ems_signaling_server_handle_text_message, ws_message_cb,
}

module _ (j : JsonGlib) where
  open j use {Node, Text, object, string, int, print, parse}

  -- What the client does with the text of an object that has the member "msg".
  client_reads :
      (s : Sdp) (c : Connection) (ms : List (String × Node)) (type : String)
      → find "msg" ms ≡ some (string type)
      → em_conn_on_ws_message_cb j s (print (object ms)) c
        ≡ dispatch_message j s c (object ms) (some type)
  unfolding em_conn_on_ws_message_cb read_root dispatch_message
  client_reads s c ms type e = rw (
    j.parse-print ms,
    read_root,
    j.has_member-object ms "msg",
    e,
    j.string_member-object ms "msg" type e,
  )

  server_reads :
      (k : ℕ) (ms : List (String × Node)) (type : String)
      → find "msg" ms ≡ some (string type)
      → ems_signaling_server_handle_text_message j k (print (object ms))
        ≡ dispatch_text j k (object ms) (some type)
  unfolding ems_signaling_server_handle_text_message read_text_root dispatch_text
  server_reads k ms type e = rw (
    j.parse-print ms,
    read_text_root,
    j.has_member-object ms "msg",
    e,
    j.string_member-object ms "msg" type e,
  )

  client_reads_offer :
      (s : Sdp) (c : Connection) (sdp : String)
      → em_conn_on_ws_message_cb j s (print (object (offer_message j sdp))) c
        ≡ em_conn_webrtc_process_sdp_offer j s c (some sdp)
  unfolding dispatch_message
  client_reads_offer s c sdp = rw (
    client_reads s c (offer_message j sdp) "offer" refl,
    dispatch_message,
    j.string_member-object (offer_message j sdp) "sdp" sdp refl,
  )

  guint_lem : {n : ℕ} → n < 2 ^ 32 → guint n ≡ n
  guint_lem h = omega arith

  client_reads_candidate :
      (s : Sdp) (c : Connection) (mlineindex : ℕ) (text : String)
      → mlineindex < 2 ^ 32
      → em_conn_on_ws_message_cb j s (print (object (candidate_message j mlineindex text))) c
        ≡ em_conn_webrtc_process_candidate j c mlineindex (some text)
  unfolding dispatch_message take_candidate
  client_reads_candidate s c mlineindex text h =
      let ms = candidate_message j mlineindex text in
      let body = candidate_body j mlineindex text in
      rw (
        client_reads s c ms "candidate" refl,
        dispatch_message,
        j.object_member-object ms body "candidate" refl,
        take_candidate,
        j.int_member-object body "sdpMLineIndex" mlineindex refl,
        j.string_member-object body "candidate" text refl,
        guint_lem h,
      )

  server_reads_answer :
      (k : ℕ) (sdp : String)
      → ems_signaling_server_handle_text_message j k (print (object (answer_message j sdp)))
        ≡ sdp_answer k (some sdp) ∷ []
  unfolding dispatch_text
  server_reads_answer k sdp = rw (
    server_reads k (answer_message j sdp) "answer" refl,
    dispatch_text,
    j.string_member-object (answer_message j sdp) "sdp" sdp refl,
  )

  server_reads_candidate :
      (k mlineindex : ℕ) (text : String)
      → mlineindex < 2 ^ 32
      → ems_signaling_server_handle_text_message j k
          (print (object (candidate_message j mlineindex text)))
        ≡ candidate k mlineindex (some text) ∷ []
  unfolding dispatch_text emit_candidate
  server_reads_candidate k mlineindex text h =
      let ms = candidate_message j mlineindex text in
      let body = candidate_body j mlineindex text in
      rw (
        server_reads k ms "candidate" refl,
        dispatch_text,
        j.object_member-object ms body "candidate" refl,
        emit_candidate,
        j.int_member-object body "sdpMLineIndex" mlineindex refl,
        j.string_member-object body "candidate" text refl,
        guint_lem h,
      )

  -- What the client does with the texts among the server's events.
  unfoldable pub deliver_to_client : Sdp → Connection → List (Event Text) → List (Action Text)
  deliver_to_client s c [] = []
  deliver_to_client s c (Event.send_text k t ∷ es) =
      em_conn_on_ws_message_cb j s t c ++ deliver_to_client s c es
  deliver_to_client s c (_ ∷ es) = deliver_to_client s c es

  -- What the server, built with USE_WEBRTC or not, does with the texts among the actions of its client `k`,
  -- which arrive as text messages.
  unfoldable pub deliver_to_server : Bool → ℕ → List (Action Text) → List (Event Text)
  deliver_to_server use_webrtc k [] = []
  deliver_to_server use_webrtc k (Action.send_text ws t ∷ rest) =
      ws_message_cb j use_webrtc 1 k t ++ deliver_to_server use_webrtc k rest
  deliver_to_server use_webrtc k (_ ∷ rest) = deliver_to_server use_webrtc k rest

  append_nil : {A : Type 0} (xs : List A) → xs ++ [] ≡ xs
  append_nil [] = refl
  append_nil (x ∷ xs) = ap (λ r. x ∷ r) (append_nil xs)

  offer_processed :
      (s : Sdp) (c : Connection) (sdp : String)
      → em_conn_webrtc_process_sdp_offer j s c (some sdp) ≡ (
          if s.parses (some sdp) && s.describes (some sdp)
          then set_remote_description c.webrtcbin (some sdp) ∷ create_answer c.webrtcbin ∷ []
          else [])
  unfolding em_conn_webrtc_process_sdp_offer
  offer_processed s c sdp = ground arith

  -- When the server has the client `k` and its websocket is open, an offer that the server sends it makes
  -- the client, if GStreamer accepts the session description, give webrtcbin just this description as the
  -- remote one and ask it for an answer, and otherwise do nothing, and an ICE candidate whose line index fits a guint
  -- makes the client give webrtcbin the same line index and the same text, and neither does more.
  pub server_to_client :
      (srv : Server) (state : ℕ → SocketState) (k : ℕ) (s : Sdp) (c : Connection)
      (sdp text : String) (mlineindex : ℕ)
      → slist_find k srv.websocket_connections ≡ true
      → state k ≡ open_state
      → mlineindex < 2 ^ 32
      → (deliver_to_client s c (ems_signaling_server_send_sdp_offer j srv state k sdp) ≡ (
          if s.parses (some sdp) && s.describes (some sdp)
          then set_remote_description c.webrtcbin (some sdp) ∷ create_answer c.webrtcbin ∷ []
          else []))
        × (deliver_to_client s c (ems_signaling_server_send_candidate j srv state k mlineindex text)
            ≡ add_ice_candidate c.webrtcbin mlineindex (some text) ∷ [])
  unfolding ems_signaling_server_send_sdp_offer ems_signaling_server_send_candidate
      send_to_websocket_client deliver_to_client em_conn_webrtc_process_candidate
  server_to_client srv state k s c sdp text mlineindex f o h = (
    rw (send_to_websocket_client, f, o, deliver_to_client, client_reads_offer s c sdp)
        (append_nil _ ∙ offer_processed s c sdp),
    rw (
      send_to_websocket_client,
      f,
      o,
      deliver_to_client,
      client_reads_candidate s c mlineindex text h,
    ),
  )

  -- At a server built with USE_WEBRTC, an answer that the client creates reaches the pipeline as an answer
  -- of that client with the same session description, and an ICE candidate whose line index fits a guint as
  -- a candidate of that client with the same line index and text, and neither does more; at a server built
  -- without it, as the repository is, neither has any effect.
  pub client_to_server :
      (use_webrtc : Bool) (k : ℕ) (c : Connection) (sdp text : String) (mlineindex : ℕ)
      → mlineindex < 2 ^ 32
      → (deliver_to_server use_webrtc k (em_conn_webrtc_on_answer_created j sdp c)
          ≡ (if use_webrtc then sdp_answer k (some sdp) ∷ [] else []))
        × (deliver_to_server use_webrtc k
              (em_conn_webrtc_on_ice_candidate_cb j mlineindex text c ∷ [])
            ≡ (if use_webrtc then candidate k mlineindex (some text) ∷ [] else []))
  unfolding deliver_to_server em_conn_webrtc_on_answer_created em_conn_send_sdp_answer
      em_conn_webrtc_on_ice_candidate_cb ws_message_cb
  client_to_server false k c sdp text mlineindex h = (refl, refl)
  client_to_server true k c sdp text mlineindex h =
      (rw (server_reads_answer k sdp), rw (server_reads_candidate k mlineindex text h))

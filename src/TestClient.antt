-- ===== src/TestClient.antt =====
-- server/src/test_client/webrtc_client.c: the signaling messages of the test client.
pub mod Session
use Prim.Native.String.{String}
use text.Mathlib.Text.{◌==◌ as str_eq}
use electric_maple.Common.{ℕ, ◌≡◌, refl, ap, Bool, Option, none, some, List, [], ◌∷◌, if◌then◌else◌}
use electric_maple.Connection.{Connection}
use electric_maple.Connection.Messages.{
  Action, Sdp, guint, answer_message, candidate_message, send_text, set_remote_description,
  set_local_description, create_answer, add_ice_candidate, crash, em_conn_webrtc_process_sdp_offer,
  em_conn_webrtc_process_candidate, take_candidate, dispatch_message, em_conn_on_ws_message_cb,
  em_conn_send_sdp_answer, em_conn_webrtc_on_ice_candidate_cb, em_conn_webrtc_on_answer_created,
  read_root as read_client_root,
}
use electric_maple.Json.{JsonGlib}

-- The file's static variables.
pub record Globals : Type 0 where
  pub ws : Option ℕ
  pub pipeline : Option ℕ
  pub webrtcbin : Option ℕ
  pub datachannel : Option ℕ

-- A data channel arrives; a second one fails an assertion.
unfoldable pub webrtc_on_data_channel_cb : ℕ → Globals → Option Globals
webrtc_on_data_channel_cb channel g = keep g.datachannel
  where
    keep : Option ℕ → Option Globals
    keep none = some (record g { datachannel = some channel })
    keep (some d) = none

-- The websocket, or an error; the pipeline and its webrtcbin; whether the pipeline plays. `none` is a
-- failed assertion.
unfoldable pub websocket_connected_cb : Option ℕ → ℕ → ℕ → Bool → Globals → Option Globals
websocket_connected_cb connection pipeline webrtcbin plays g = fresh g.ws connection
  where
    fresh : Option ℕ → Option ℕ → Option Globals
    fresh (some w) connection = none
    fresh none none = some g
    fresh none (some w) =
        if plays
        then some (record g { ws = some w; pipeline = some pipeline; webrtcbin = some webrtcbin })
        else none

module _ (j : JsonGlib) where
  open j use {
    Node, Text, object, print, parse, has_member, string_member, int_member, object_member,
  }

  unfoldable pub send_sdp_answer : Globals → String → Action Text
  send_sdp_answer g sdp = send_text g.ws (print (object (answer_message j sdp)))

  unfoldable pub webrtc_on_ice_candidate_cb : ℕ → String → Globals → Action Text
  webrtc_on_ice_candidate_cb mlineindex candidate g =
      send_text g.ws (print (object (candidate_message j mlineindex candidate)))

  unfoldable pub on_answer_created : String → Globals → List (Action Text)
  on_answer_created sdp g = set_local_description g.webrtcbin ∷ send_sdp_answer g sdp ∷ []

  unfoldable pub process_sdp_offer : Sdp → Globals → Option String → List (Action Text)
  process_sdp_offer s g sdp =
      if s.parses sdp
      then if s.describes sdp
        then set_remote_description g.webrtcbin sdp ∷ create_answer g.webrtcbin ∷ []
        else []
      else []

  unfoldable pub process_candidate : Globals → ℕ → Option String → List (Action Text)
  process_candidate g mlineindex candidate = add_ice_candidate g.webrtcbin mlineindex candidate ∷ []

  unfoldable pub read_candidate : Globals → Option Node → List (Action Text)
  read_candidate g candidate =
      process_candidate g (guint (int_member candidate "sdpMLineIndex"))
        (string_member candidate "candidate")

  -- The branch on the type; `g_str_equal` on NULL dereferences it.
  unfoldable pub dispatch : Sdp → Globals → Node → Option String → List (Action Text)
  dispatch s g msg none = crash ∷ []
  dispatch s g msg (some msg_type) =
      if str_eq msg_type "offer"
      then process_sdp_offer s g (string_member (some msg) "sdp")
      else if str_eq msg_type "candidate"
      then read_candidate g (object_member (some msg) "candidate")
      else []

  -- What follows `json_parser_load_from_data`.
  unfoldable pub read_root : Sdp → Globals → Option Node → List (Action Text)
  read_root s g none = []
  read_root s g (some msg) =
      if has_member (some msg) "msg" then dispatch s g msg (string_member (some msg) "msg") else []

  unfoldable pub message_cb : Sdp → Text → Globals → List (Action Text)
  message_cb s message g = read_root s g (parse message)

  -- The test client's part of a connection of the headset client.
  abbrev pub globals_of : Connection → Globals
  globals_of c = record {
    ws = c.ws;
    pipeline = c.pipeline;
    webrtcbin = c.webrtcbin;
    datachannel = c.datachannel;
  }

  dispatch_lem :
      (s : Sdp) (c : Connection) (msg : Node) (o : Option String)
      → dispatch s (globals_of c) msg o ≡ dispatch_message j s c msg o
  unfolding dispatch dispatch_message read_candidate take_candidate process_candidate
      em_conn_webrtc_process_candidate process_sdp_offer em_conn_webrtc_process_sdp_offer
  dispatch_lem s c msg none = refl
  dispatch_lem s c msg (some t) = refl

  root_lem :
      (s : Sdp) (c : Connection) (o : Option Node)
      → read_root s (globals_of c) o ≡ read_client_root j s c o
  unfolding read_root read_client_root
  root_lem s c none = refl
  root_lem s c (some msg) =
      ap (λ x. if has_member (some msg) "msg" then x else [])
        (dispatch_lem s c msg (string_member (some msg) "msg"))

  -- Over any JSON library, the test client does with every websocket message, and sends for every answer
  -- and every ICE candidate, what the headset client does whose websocket and webrtcbin are the same.
  pub same_as_headset :
      (s : Sdp) (c : Connection) (message : Text) (sdp candidate : String) (mlineindex : ℕ)
      → (message_cb s message (globals_of c) ≡ em_conn_on_ws_message_cb j s message c)
        × (on_answer_created sdp (globals_of c) ≡ em_conn_webrtc_on_answer_created j sdp c)
        × (webrtc_on_ice_candidate_cb mlineindex candidate (globals_of c)
            ≡ em_conn_webrtc_on_ice_candidate_cb j mlineindex candidate c)
  unfolding message_cb em_conn_on_ws_message_cb on_answer_created em_conn_webrtc_on_answer_created
      send_sdp_answer em_conn_send_sdp_answer webrtc_on_ice_candidate_cb
      em_conn_webrtc_on_ice_candidate_cb
  same_as_headset s c message sdp candidate mlineindex = (root_lem s c (parse message), refl, refl)

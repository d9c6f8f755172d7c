-- ===== src/Connection/Messages.antt =====
-- client/src/em/em_connection.c: the signaling messages of the client, over JSON-GLib and GStreamer's SDP
-- functions.
use Prim.Native.String.{String}
use text.Mathlib.Text.{◌==◌ as str_eq}
use electric_maple.Common.{ℕ, ◌%◌, ◌^◌, Bool, Option, none, some, List, [], ◌∷◌, if◌then◌else◌}
use electric_maple.Connection.{Connection}
use electric_maple.Json.{JsonGlib}

-- What a handler of a message does: it sends a text, makes webrtcbin take a description or a candidate
-- or create an answer, or it ends in a null dereference.
pub data Action (Text : Type 0) : Type 0 where
  send_text : Option ℕ → Text → Action Text
  set_remote_description : Option ℕ → Option String → Action Text
  set_local_description : Option ℕ → Action Text
  create_answer : Option ℕ → Action Text
  add_ice_candidate : Option ℕ → ℕ → Option String → Action Text
  crash : Action Text

-- Whether GStreamer parses a session description (`gst_sdp_message_new_from_text` refuses NULL), and
-- whether `gst_webrtc_session_description_new` makes a description of it.
pub record Sdp : Type 0 where
  pub parses : Option String → Bool
  pub describes : Option String → Bool

abbrev pub guint : ℕ → ℕ
guint n = n % 2 ^ 32

module _ (j : JsonGlib) where
  open j use {
    Node, Text, object, string, int, print, parse, has_member, string_member, int_member,
    object_member,
  }

  abbrev pub answer_message : String → List (String × Node)
  answer_message sdp = ("msg", string "answer") ∷ ("sdp", string sdp) ∷ []

  abbrev pub candidate_body : ℕ → String → List (String × Node)
  candidate_body mlineindex candidate =
      ("candidate", string candidate) ∷ ("sdpMLineIndex", int mlineindex) ∷ []

  abbrev pub candidate_message : ℕ → String → List (String × Node)
  candidate_message mlineindex candidate =
      ("msg", string "candidate") ∷ ("candidate", object (candidate_body mlineindex candidate)) ∷ []

  unfoldable pub em_conn_send_sdp_answer : Connection → String → Action Text
  em_conn_send_sdp_answer c sdp = send_text c.ws (print (object (answer_message sdp)))

  unfoldable pub em_conn_webrtc_on_ice_candidate_cb : ℕ → String → Connection → Action Text
  em_conn_webrtc_on_ice_candidate_cb mlineindex candidate c =
      send_text c.ws (print (object (candidate_message mlineindex candidate)))

  -- The promise's reply holds an answer, with the text of its description.
  unfoldable pub em_conn_webrtc_on_answer_created : String → Connection → List (Action Text)
  em_conn_webrtc_on_answer_created sdp c =
      set_local_description c.webrtcbin ∷ em_conn_send_sdp_answer c sdp ∷ []

  unfoldable pub em_conn_webrtc_process_sdp_offer :
      Sdp → Connection → Option String → List (Action Text)
  em_conn_webrtc_process_sdp_offer s c sdp =
      if s.parses sdp
      then if s.describes sdp
        then set_remote_description c.webrtcbin sdp ∷ create_answer c.webrtcbin ∷ []
        else []
      else []

  unfoldable pub em_conn_webrtc_process_candidate :
      Connection → ℕ → Option String → List (Action Text)
  em_conn_webrtc_process_candidate c mlineindex candidate =
      add_ice_candidate c.webrtcbin mlineindex candidate ∷ []

  unfoldable pub take_candidate : Connection → Option Node → List (Action Text)
  take_candidate c candidate =
      em_conn_webrtc_process_candidate c (guint (int_member candidate "sdpMLineIndex"))
        (string_member candidate "candidate")

  -- The branch on the type; `g_str_equal` on NULL dereferences it.
  unfoldable pub dispatch_message : Sdp → Connection → Node → Option String → List (Action Text)
  dispatch_message s c msg none = crash ∷ []
  dispatch_message s c msg (some msg_type) =
      if str_eq msg_type "offer"
      then em_conn_webrtc_process_sdp_offer s c (string_member (some msg) "sdp")
      else if str_eq msg_type "candidate"
      then take_candidate c (object_member (some msg) "candidate")
      else []

  -- What follows `json_parser_load_from_data`.
  unfoldable pub read_root : Sdp → Connection → Option Node → List (Action Text)
  read_root s c none = []
  read_root s c (some msg) =
      if has_member (some msg) "msg"
      then dispatch_message s c msg (string_member (some msg) "msg")
      else []

  unfoldable pub em_conn_on_ws_message_cb : Sdp → Text → Connection → List (Action Text)
  em_conn_on_ws_message_cb s message c = read_root s c (parse message)

-- ===== src/Pipeline/Webrtc.antt =====
-- server/src/ems/gst/ems_gstreamer_pipeline.c: the callbacks of webrtcbin, in the build with USE_WEBRTC.
use Prim.Native.String.{String}
use electric_maple.Common.{ℕ, Bool, Option, none, some, List, [], ◌∷◌, if◌then◌else◌}
use electric_maple.Stream.Bus.{GstState, null_state}

-- What the callbacks ask of GStreamer and of the signaling server, with the objects that they unref.
pub data WebrtcCall : Type 0 where
  get_stats : ℕ → WebrtcCall
  print_stats : String → WebrtcCall
  link_pads : ℕ → ℕ → WebrtcCall
  set_send_only : ℕ → WebrtcCall
  set_local_description : ℕ → String → WebrtcCall
  send_offer : ℕ → String → WebrtcCall
  send_candidate : ℕ → ℕ → String → WebrtcCall
  send_string : String → WebrtcCall
  send_data : List ℕ → WebrtcCall
  block_downstream : ℕ → ℕ → WebrtcCall
  set_state : ℕ → GstState → WebrtcCall
  remove_from_bin : ℕ → WebrtcCall
  unref : ℕ → WebrtcCall

-- The text of the statistics, if the promise was replied to.
unfoldable pub on_webrtcbin_get_stats : Option String → List WebrtcCall
on_webrtcbin_get_stats none = []
on_webrtcbin_get_stats (some stats) = print_stats stats ∷ []

unfoldable pub webrtcbin_get_stats : ℕ → ℕ → List WebrtcCall
webrtcbin_get_stats webrtcbin promise = get_stats webrtcbin ∷ unref promise ∷ []

-- The element with the client's name, of which `by_name` is the pipeline's lookup and `name_of` the text for
-- a client.
unfoldable pub get_webrtcbin_for_client : (String → Option ℕ) → (ℕ → String) → ℕ → Option ℕ
get_webrtcbin_for_client by_name name_of client_id = by_name (name_of client_id)

-- The element's parent, if it has one, the tee, its pad and the element's, whether they link, and the
-- transceivers. `none` is a failed assertion.
pub record Tee : Type 0 where
  pub parent : Option ℕ
  pub tee : ℕ
  pub src_pad : ℕ
  pub sink_pad : ℕ
  pub links : Bool
  pub transceivers : List ℕ

abbrev pub the_transceiver : List ℕ → Option ℕ
the_transceiver (t ∷ []) = some t
the_transceiver _ = none

abbrev pub link_and_set : Tee → ℕ → Option ℕ → Option (List WebrtcCall)
link_and_set t pipeline none = none
link_and_set t pipeline (some trans) = some (
    link_pads t.src_pad t.sink_pad
    ∷ set_send_only trans
    ∷ unref t.src_pad
    ∷ unref t.sink_pad
    ∷ unref t.tee
    ∷ unref pipeline
    ∷ [])

abbrev pub link_under : Tee → Option ℕ → Option (List WebrtcCall)
link_under t none = some []
link_under t (some pipeline) =
    if t.links then link_and_set t pipeline (the_transceiver t.transceivers) else none

unfoldable pub connect_webrtc_to_tee : Tee → Option (List WebrtcCall)
connect_webrtc_to_tee t = link_under t t.parent

-- The offer's text goes to the client whose id the element carries.
unfoldable pub on_offer_created : ℕ → ℕ → ℕ → String → List WebrtcCall
on_offer_created promise webrtcbin client_id sdp =
    unref promise ∷ set_local_description webrtcbin sdp ∷ send_offer client_id sdp ∷ []

unfoldable pub webrtc_on_ice_candidate_cb : ℕ → ℕ → String → List WebrtcCall
webrtc_on_ice_candidate_cb client_id mlineindex candidate =
    send_candidate client_id mlineindex candidate ∷ []

-- The bytes are those of the buffer, the zero at its end included.
unfoldable pub datachannel_send_message : List ℕ → List WebrtcCall
datachannel_send_message buf = send_string "Hi! from Electric Maple Server" ∷ send_data buf ∷ []

-- The probe that runs when the pad is blocked; the probe's destruction drops a reference to the element.
unfoldable pub remove_webrtcbin_probe_cb : ℕ → List WebrtcCall
remove_webrtcbin_probe_cb webrtcbin =
    set_state webrtcbin null_state ∷ remove_from_bin webrtcbin ∷ unref webrtcbin ∷ []

abbrev pub block_pad : ℕ → Option ℕ → List WebrtcCall
block_pad webrtcbin none = []
block_pad webrtcbin (some sinkpad) = block_downstream sinkpad webrtcbin ∷ unref sinkpad ∷ []

abbrev pub disconnect_bin : ℕ → Option ℕ → Option ℕ → List WebrtcCall
disconnect_bin promise sinkpad none = []
disconnect_bin promise sinkpad (some webrtcbin) =
    get_stats webrtcbin ∷ unref promise ∷ block_pad webrtcbin sinkpad

-- The element of the client, if the pipeline has it, and its pad "sink_0", if it has that.
unfoldable pub webrtc_client_disconnected_cb : (ℕ → Option ℕ) → ℕ → Option ℕ → ℕ → List WebrtcCall
webrtc_client_disconnected_cb webrtcbin_for promise sinkpad client_id =
    disconnect_bin promise sinkpad (webrtcbin_for client_id)

-- ===== src/TestClient/Session.antt =====
-- server/src/test_client/webrtc_client.c: the test client's main function, its bus, its data channel and the
-- callbacks that only print.
use Prim.Native.String.{String}
use electric_maple.Common.{
  ℕ, ◌/◌, ◌≡◌, Bool, true, false, Option, none, some, List, [], ◌∷◌, arith, ◌==◌, inl, inr,
  Option-cases, if◌then◌else◌,
}
use electric_maple.Common.Int.{ℤ, ◌-ℤ◌, sub_u64}
use electric_maple.Connection.{Outcome, ok, aborted, exited}
use electric_maple.Stream.Bus.{BusMessage, error, eos}
use electric_maple.TestClient.{Globals, webrtc_on_data_channel_cb}

abbrev pub websocket_uri_default : String
websocket_uri_default = "ws://127.0.0.1:52356/ws"

-- What the main function does: connect to an address, run its loop until SIGINT, and free the address.
pub data MainCall : Type 0 where
  connect_to : String → MainCall
  run_loop unref_loop free_uri : MainCall

abbrev pub uri_or_default : Option String → String
uri_or_default none = websocket_uri_default
uri_or_default (some uri) = uri

-- Whether the options are parsed, and the address that they give.
unfoldable pub main : Bool → Option String → Outcome (List MainCall)
main parsed websocket_uri =
    if parsed
    then ok (connect_to (uri_or_default websocket_uri) ∷ run_loop ∷ unref_loop ∷ free_uri ∷ [])
    else exited

-- Whether the loop still runs.
unfoldable pub sigint_handler : Bool → Bool
sigint_handler running = false

-- Whether the process goes on.
unfoldable pub gst_bus_cb : BusMessage → Bool
gst_bus_cb error = false
gst_bus_cb eos = false
gst_bus_cb _ = true

-- The size of the buffer of the ICE transport, or `g_error`.
unfoldable pub on_prepare_data_channel : Bool → Bool → Bool → Outcome ℕ
on_prepare_data_channel sctp dtls ice =
    if sctp then if dtls then if ice then ok 8388608 else aborted else aborted else aborted

-- The objects that are not given back: a source pad's caps and their text.
unfoldable pub on_pad_added : Bool → ℕ → ℕ → List ℕ
on_pad_added is_src caps text = if is_src then caps ∷ text ∷ [] else []

-- The static variables of `buffer_probe_cb`.
pub record Previous : Type 0 where
  pub previous_pts : ℕ
  pub previous_time : ℤ

-- The differences that are printed; `time_ms` divides by a million in doubles and casts.
unfoldable pub buffer_probe_cb : (ℤ → ℤ) → Bool → ℕ → ℤ → Previous → Previous × Option (ℕ × ℤ)
buffer_probe_cb time_ms is_buffer pts now p =
    let after = record p { previous_pts = pts; previous_time = now } in
    if is_buffer
    then if p.previous_pts == 0
      then (after, none)
      else (after, some (sub_u64 pts p.previous_pts / 1000000, time_ms (now -ℤ p.previous_time)))
    else (p, none)

-- A channel that was closed: the timer that is removed and the object that is unref'd. The argument hides
-- the static variable of the same name, which keeps its value.
pub record ChannelClosed : Type 0 where
  pub globals : Globals
  pub removed_source : ℕ
  pub unrefd : ℕ

unfoldable pub data_channel_close_cb : ℕ → ℕ → Globals → ChannelClosed
data_channel_close_cb datachannel timeout_src_id g = record {
  globals = g;
  removed_source = timeout_src_id;
  unrefd = datachannel;
}

unfoldable pub data_channel_error_cb : Globals → Outcome Globals
data_channel_error_cb g = aborted

-- The channel to which the greeting is sent.
unfoldable pub datachannel_send_message : Globals → Option ℕ × String
datachannel_send_message g = (g.datachannel, "Hi! from EMS test client")

opened_channel :
    (c : ℕ) (g : Globals) {h : Globals}
    → webrtc_on_data_channel_cb c g ≡ some h
    → h.datachannel ≡ some c
unfolding webrtc_on_data_channel_cb
opened_channel c g e = elim (Option-cases g.datachannel) [
  | inl free ↦ ground arith
  | inr (d, taken) ↦ ground arith
]

second_refused :
    (c d : ℕ) (g : Globals) → g.datachannel ≡ some d → webrtc_on_data_channel_cb c g ≡ none
unfolding webrtc_on_data_channel_cb
second_refused c d g e = ground arith

-- After a data channel was opened and closed again, the greeting would still go to it, and the next data
-- channel fails the assertion that there is none.
pub closed_channel_stays :
    (c d timer : ℕ) (g h : Globals)
    → webrtc_on_data_channel_cb c g ≡ some h
    → let closed = (data_channel_close_cb c timer h).globals in
      ((datachannel_send_message closed).0 ≡ some c) × (webrtc_on_data_channel_cb d closed ≡ none)
unfolding data_channel_close_cb datachannel_send_message
closed_channel_stays c d timer g h e =
    let stays = opened_channel c g e in (stays, second_refused d c h stays)

-- ===== src/Signaling/Life.antt =====
-- server/src/ems/gst/ems_signaling_server.c: the libsoup server that the signaling server starts, the signals
-- that it registers, and its end.
use Prim.Native.String.{String}
use electric_maple.Common.{ℕ, Bool, Option, none, some, List, [], ◌∷◌, if◌then◌else◌}
use electric_maple.Signaling.{Server}

abbrev pub ems_default_port : ℕ
ems_default_port = 52356

-- A handler of the libsoup server: for any path, or for websockets of one path.
pub data SoupHandler : Type 0 where
  any_path : SoupHandler
  websocket_path : String → SoupHandler

-- The server with its libsoup server, the port on which that listens, and the references that were dropped.
pub record Whole : Type 0 where
  pub server : Server
  pub soup_server : Option ℕ
  pub handlers : List SoupHandler
  pub port : Option ℕ
  pub dropped : List ℕ

-- The libsoup server, and whether it can listen; `none` is a failed assertion.
unfoldable pub ems_signaling_server_init : Option ℕ → Bool → Server → Option Whole
ems_signaling_server_init none listens s = none
ems_signaling_server_init (some soup) listens s =
    if listens
    then some (record {
      server = s;
      soup_server = some soup;
      handlers = any_path ∷ websocket_path "/ws" ∷ [];
      port = some ems_default_port;
      dropped = [];
    })
    else none

abbrev pub drop_soup : Option ℕ → List ℕ → List ℕ
drop_soup none dropped = dropped
drop_soup (some soup) dropped = soup ∷ dropped

-- The ENet host and thread are left as they are.
unfoldable pub ems_signaling_server_dispose : Whole → Whole
ems_signaling_server_dispose w = record w {
  soup_server = none;
  port = none;
  dropped = drop_soup w.soup_server w.dropped;
}

pub data ArgumentType : Type 0 where
  pointer text unsigned : ArgumentType

-- The signals with the types of their arguments.
unfoldable pub ems_signaling_server_class_init : List (String × List ArgumentType)
ems_signaling_server_class_init =
    ("ws-client-connected", pointer ∷ text ∷ [])
    ∷ ("ws-client-disconnected", pointer ∷ [])
    ∷ ("sdp-answer", pointer ∷ text ∷ [])
    ∷ ("candidate", pointer ∷ unsigned ∷ text ∷ [])
    ∷ ("up_message", pointer ∷ [])
    ∷ []

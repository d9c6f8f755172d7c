-- ===== src/Stream/Metadata.antt =====
-- client/src/em/em_stream_client.c: the pad probes that move the down message from the RTP packets to
-- the frame's buffer.
use electric_maple.Common.{ℕ, Bool, Option, none, some, List, if◌then◌else◌}
use electric_maple.Common.Int.{ℤ}
use electric_maple.Stream.{StreamClient, CustomMeta}

-- An RTP packet: whether it can be mapped, whether it has the extension bit, and the data of the
-- two-byte header extension with the program's id.
pub record Packet : Type 0 where
  pub maps : Bool
  pub extension_bit : Bool
  pub twobytes_header : Option (List ℕ)

unfoldable pub take_header : Packet → StreamClient → StreamClient
take_header p sc =
    if p.maps
    then if p.extension_bit
      then record sc { preserved_metadata_struct_buf = p.twobytes_header }
      else sc
    else sc

-- The first of a frame's packets that carries the message fills the slot; `gst_buffer_new_memdup`
-- aborts the program when it has no memory.
unfoldable pub rtpdepay_sink_pad_probe : Packet → StreamClient → StreamClient
rtpdepay_sink_pad_probe p sc = keep sc.preserved_metadata_struct_buf
  where
    keep : Option (List ℕ) → StreamClient
    keep none = take_header p sc
    keep (some m) = sc

-- A frame's buffer leaves the depayloader at the time `now`: the meta that it gets, if it can get one,
-- and the emptied slot.
unfoldable pub rtpdepay_src_pad_probe : ℤ → Bool → StreamClient → StreamClient × Option CustomMeta
rtpdepay_src_pad_probe now adds sc = attach sc.preserved_metadata_struct_buf
  where
    attach : Option (List ℕ) → StreamClient × Option CustomMeta
    attach none = (sc, none)
    attach (some m) = (
      record sc { preserved_metadata_struct_buf = none },
      (if adds then some (record { protobuf = some m; frame_receive_time = some now }) else none),
    )

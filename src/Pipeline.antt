-- ===== src/Pipeline.antt =====
-- server/src/ems/gst/ems_gstreamer_pipeline.c: the down message on its way into the RTP packets, and the
-- messages that come up from the client.
pub mod Travel
pub mod ClockSync
pub mod Encoder
pub mod Clients
pub mod Uplink
pub mod Life
pub mod Webrtc
use electric_maple.Common.{
  ℕ, zero, suc, Bool, true, Option, none, some, List, [], ◌∷◌, ◌++◌, leb, if◌then◌else◌, length,
  take,
}
use electric_maple.Stream.Metadata.{Packet}

-- `RTP_TWOBYTES_HDR_EXT_MAX_SIZE`
abbrev pub max_size : ℕ
max_size = 255

-- The custom meta "down-message" of an encoded frame: its buffer "protobuf", if it is there, and
-- whether that can be mapped.
pub record FrameMeta : Type 0 where
  pub protobuf : Option (List ℕ)
  pub maps : Bool

-- The fields of `ems_gstreamer_pipeline` that the probes share: the array's bytes and the size in use.
pub record Preserved : Type 0 where
  pub preserved_metadata : List ℕ
  pub preserved_metadata_size : ℕ

-- `memcpy` to the array, or past its end.
pub data Copied : Type 0 where
  within : Preserved → Copied
  overrun : Copied

abbrev pub drop : ℕ → List ℕ → List ℕ
drop zero xs = xs
drop (suc n) [] = []
drop (suc n) (x ∷ xs) = drop n xs

unfoldable pub copy_metadata : List ℕ → Preserved → Copied
copy_metadata bytes p =
    if leb (length bytes) max_size
    then within (record {
      preserved_metadata = bytes ++ drop (length bytes) p.preserved_metadata;
      preserved_metadata_size = length bytes;
    })
    else overrun

unfoldable pub copy_mapped : Option (List ℕ) → Bool → Preserved → Copied
copy_mapped none maps p = within p
copy_mapped (some bytes) maps p = if maps then copy_metadata bytes p else within p

unfoldable pub rtppay_sink_pad_probe : Option FrameMeta → Preserved → Copied
rtppay_sink_pad_probe none p = within p
rtppay_sink_pad_probe (some m) p = copy_mapped m.protobuf m.maps p

-- A packet leaves the payloader: whether it can be mapped, and whether GStreamer can add a header
-- extension of these bytes.
unfoldable pub rtppay_src_pad_probe : Bool → (List ℕ → Bool) → Preserved → Packet → Packet
rtppay_src_pad_probe maps adds p packet =
    let bytes = take p.preserved_metadata_size p.preserved_metadata in
    if maps
    then if adds bytes
      then record packet { extension_bit = true; twobytes_header = some bytes }
      else packet
    else packet

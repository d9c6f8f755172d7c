-- ===== src/Pipeline/Travel.antt =====
-- The down message of a frame, from the server's appsrc through the RTP packets to the client's decoded
-- buffer: ems_gstreamer_pipeline.c and em_stream_client.c together.
use electric_maple.Common.{
  ℕ, ◌≤◌, ◌≡◌, refl, ap, Bool, true, false, Option, none, some, List, [], ◌∷◌, ◌++◌, arith,
  if◌then◌else◌, leb, length, take-length_append, All,
}
use electric_maple.Common.Int.{ℤ}
use electric_maple.Pipeline.{
  Preserved, Copied, within, overrun, max_size, drop, copy_metadata, copy_mapped,
  rtppay_sink_pad_probe, rtppay_src_pad_probe,
}
use electric_maple.Stream.{StreamClient, CustomMeta, DownMessage}
use electric_maple.Stream.Pull.{read_down_message_from_custom_meta}
use electric_maple.Stream.Metadata.{
  Packet, take_header, rtpdepay_sink_pad_probe, rtpdepay_src_pad_probe,
}

-- A frame that the server sends: the bytes of its down message, for each of its packets whether it
-- arrives, and when the client has all that arrive.
pub record Frame : Type 0 where
  pub message : List ℕ
  pub arrives : List Bool
  pub receive_time : ℤ

-- A packet as the payloader makes it.
abbrev pub fresh : Packet
fresh = record { maps = true; extension_bit = false; twobytes_header = none }

-- The packets of a frame that arrive.
unfoldable pub send_packets : (List ℕ → Bool) → Preserved → List Bool → List Packet
send_packets adds p [] = []
send_packets adds p (a ∷ rest) =
    let later = send_packets adds p rest in
    if a then rtppay_src_pad_probe true adds p fresh ∷ later else later

unfoldable pub receive_packets : List Packet → StreamClient → StreamClient
receive_packets [] sc = sc
receive_packets (p ∷ ps) sc = receive_packets ps (rtpdepay_sink_pad_probe p sc)

abbrev sent : (List ℕ → Bool) → List Bool → Copied → List Packet
sent adds arrives (within p) = send_packets adds p arrives
sent adds arrives overrun = []

abbrev kept : Preserved → Copied → Preserved
kept p (within q) = q
kept p overrun = p

abbrev continue :
    (StreamClient → List (Option CustomMeta))
    → StreamClient × Option CustomMeta
    → List (Option CustomMeta)
continue f (sc, m) = m ∷ f sc

-- The metas of the decoded frames, when the frames go from a server to a client one after the other.
unfoldable pub stream :
    (List ℕ → Bool) → List Frame → Preserved → StreamClient → List (Option CustomMeta)
stream adds [] p sc = []
stream adds (f ∷ fs) p sc =
    let copied =
      rtppay_sink_pad_probe (some (record { protobuf = some f.message; maps = true })) p in
    continue (stream adds fs (kept p copied))
      (rtpdepay_src_pad_probe f.receive_time true (receive_packets (sent adds f.arrives copied) sc))

abbrev pub has_arrival : List Bool → Bool
has_arrival [] = false
has_arrival (a ∷ rest) = if a then true else has_arrival rest

-- What a frame should arrive with.
abbrev pub own_meta : Frame → Option CustomMeta
own_meta f = some (record { protobuf = some f.message; frame_receive_time = some f.receive_time })

unfoldable pub own_metas : List Frame → List (Option CustomMeta)
own_metas [] = []
own_metas (f ∷ fs) = own_meta f ∷ own_metas fs

-- The message fits the header extension, and a packet of the frame arrives.
abbrev pub IsSendable : Frame → Type 0
IsSendable f = (length f.message ≤ max_size) × (has_arrival f.arrives ≡ true)

src_probe_lem :
    (adds : List ℕ → Bool) (bytes rest : List ℕ)
    → adds bytes ≡ true
    → rtppay_src_pad_probe true adds
        (record { preserved_metadata = bytes ++ rest; preserved_metadata_size = length bytes })
        fresh
      ≡ record { maps = true; extension_bit = true; twobytes_header = some bytes }
unfolding rtppay_src_pad_probe
src_probe_lem adds bytes rest h = rw (take-length_append bytes rest, h)

-- The packet that carries a message.
abbrev carrier : List ℕ → Packet
carrier bytes = record { maps = true; extension_bit = true; twobytes_header = some bytes }

abbrev filled : StreamClient → List ℕ → StreamClient
filled sc bytes = record sc { preserved_metadata_struct_buf = some bytes }

receive_filled :
    (adds : List ℕ → Bool) (p : Preserved) (arrives : List Bool) (sc : StreamClient)
    (bytes : List ℕ)
    → receive_packets (send_packets adds p arrives) (filled sc bytes) ≡ filled sc bytes
unfolding send_packets receive_packets rtpdepay_sink_pad_probe
receive_filled adds p [] sc bytes = refl
receive_filled adds p (true ∷ rest) sc bytes = receive_filled adds p rest sc bytes
receive_filled adds p (false ∷ rest) sc bytes = receive_filled adds p rest sc bytes

take_carrier :
    (bytes : List ℕ) (sc : StreamClient)
    → sc.preserved_metadata_struct_buf ≡ none
    → rtpdepay_sink_pad_probe (carrier bytes) sc ≡ filled sc bytes
unfolding rtpdepay_sink_pad_probe take_header
take_carrier bytes sc h = rw h

false≢true : ¬ (false ≡ true)
false≢true = ground arith

receive_frame :
    (adds : List ℕ → Bool) (bytes rest : List ℕ) (arrives : List Bool) (sc : StreamClient)
    → adds bytes ≡ true
    → has_arrival arrives ≡ true
    → sc.preserved_metadata_struct_buf ≡ none
    → receive_packets
        (send_packets adds
          (record { preserved_metadata = bytes ++ rest; preserved_metadata_size = length bytes })
          arrives)
        sc
      ≡ filled sc bytes
unfolding send_packets receive_packets
receive_frame adds bytes rest [] sc a h e = absurd (false≢true h)
receive_frame adds bytes rest (true ∷ more) sc a h e =
    rw (src_probe_lem adds bytes rest a, take_carrier bytes sc e)
      (receive_filled adds
        (record { preserved_metadata = bytes ++ rest; preserved_metadata_size = length bytes }) more
        sc bytes)
receive_frame adds bytes rest (false ∷ more) sc a h e = receive_frame adds bytes rest more sc a h e

sink_probe_lem :
    (bytes : List ℕ) (p : Preserved)
    → length bytes ≤ max_size
    → rtppay_sink_pad_probe (some (record { protobuf = some bytes; maps = true })) p
      ≡ within (record {
        preserved_metadata = bytes ++ drop (length bytes) p.preserved_metadata;
        preserved_metadata_size = length bytes;
      })
unfolding rtppay_sink_pad_probe copy_mapped copy_metadata
sink_probe_lem bytes p h = rw (leb_lem h)
  where
    leb_lem : {m n : ℕ} → m ≤ n → leb m n ≡ true
    leb_lem h = ground arith

emptied : StreamClient → StreamClient
emptied sc = record sc { preserved_metadata_struct_buf = none }

src_pad_lem :
    (now : ℤ) (bytes : List ℕ) (sc : StreamClient)
    → rtpdepay_src_pad_probe now true (filled sc bytes)
      ≡ (emptied sc, some (record { protobuf = some bytes; frame_receive_time = some now }))
unfolding rtpdepay_src_pad_probe emptied
src_pad_lem now bytes sc = refl

-- When frames go from the server to the client one after the other, each with a message that fits the
-- header extension and with a packet that arrives, whatever packets are lost besides, and GStreamer maps
-- every buffer and packet, adds every meta and adds every extension of at most 255 bytes, each decoded frame has its own message and its own receive time.
pub messages_travel :
    (adds : List ℕ → Bool) (fs : List Frame) (p : Preserved) (sc : StreamClient)
    → ((bytes : List ℕ) → length bytes ≤ max_size → adds bytes ≡ true)
    → All IsSendable fs
    → sc.preserved_metadata_struct_buf ≡ none
    → stream adds fs p sc ≡ own_metas fs
unfolding stream own_metas emptied
messages_travel adds [] p sc g a e = refl
messages_travel adds (f ∷ fs) p sc g ((h, some_arrives), a) e =
    rw
      (
        sink_probe_lem f.message p h,
        receive_frame adds f.message (drop (length f.message) p.preserved_metadata) f.arrives sc
            (g f.message h) some_arrives e,
        src_pad_lem f.receive_time f.message sc,
      )
      (ap (λ r. own_meta f ∷ r) (messages_travel adds fs _ (emptied sc) g a refl))

-- What the renderer reads of a frame's meta is the message that was encoded and the receive time.
pub read_own_meta :
    (decode : List ℕ → Option DownMessage) (f : Frame)
    → read_down_message_from_custom_meta decode (own_meta f) ≡ (decode f.message, f.receive_time)
unfolding read_down_message_from_custom_meta
read_own_meta decode f = refl

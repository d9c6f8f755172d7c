-- ===== src/Pipeline/ClockSync.antt =====
-- server/src/ems/gst/ems_gstreamer_pipeline.c and client/src/em/em_connection.c: the server's clock on its
-- way over the data channel.
use electric_maple.Common.{
  ℕ, zero, suc, ◌*◌, ◌/◌, ◌%◌, ◌^◌, ◌<◌, ◌≡◌, refl, List, [], ◌∷◌, arith, length,
}
use electric_maple.Common.Int.{pos, ◌-ℤ◌}
use electric_maple.Connection.{Connection}
use electric_maple.Connection.Clock.{
  word_le, emconn_data_channel_message_data_cb, em_connection_get_server_clock_offset,
  offset_between_exact,
}

-- The first bytes of a number in the memory of a little-endian machine.
unfoldable pub bytes_le : ℕ → ℕ → List ℕ
bytes_le zero w = []
bytes_le (suc n) w = w % 256 ∷ bytes_le n (w / 256)

-- The uint64_t that the server sends at the time `now`.
unfoldable pub datachannel_send_clock : ℕ → List ℕ
datachannel_send_clock now = bytes_le 8 now

-- 256 to the power of a number of bytes.
abbrev limit : ℕ → ℕ
limit zero = 1
limit (suc n) = 256 * limit n

word_le-bytes_le : (n w : ℕ) → w < limit n → word_le (bytes_le n w) ≡ w
unfolding word_le bytes_le
word_le-bytes_le zero w h = omega arith
word_le-bytes_le (suc n) w h = omega (arith, word_le-bytes_le n (w / 256) (omega arith))

length-bytes_le : (n w : ℕ) → length (bytes_le n w) ≡ n
unfolding bytes_le
length-bytes_le zero w = refl
length-bytes_le (suc n) w = omega (arith, length-bytes_le n (w / 256))

word_le-send_clock : (now : ℕ) → now < 2 ^ 63 → word_le (datachannel_send_clock now) ≡ now
unfolding datachannel_send_clock
word_le-send_clock now h = word_le-bytes_le 8 now (omega arith)

length-send_clock : (now : ℕ) → length (datachannel_send_clock now) ≡ 8
unfolding datachannel_send_clock
length-send_clock now = length-bytes_le 8 now

-- While both clocks are below 2^63 ns, the first clock message of the server sets the client's offset, which
-- was not set (0) before, to the difference between the client's clock when the message arrives and
-- the server's when it was sent.
pub clock_message_sets_offset :
    (server_now client_now : ℕ) (c : Connection)
    → server_now < 2 ^ 63
    → client_now < 2 ^ 63
    → c.server_offset ≡ pos 0
    → em_connection_get_server_clock_offset
        (emconn_data_channel_message_data_cb client_now (datachannel_send_clock server_now) c)
      ≡ pos client_now -ℤ pos server_now
unfolding em_connection_get_server_clock_offset emconn_data_channel_message_data_cb
clock_message_sets_offset server_now client_now c h k z =
    rw (length-send_clock server_now, z, word_le-send_clock server_now h)
      (offset_between_exact client_now server_now k h)

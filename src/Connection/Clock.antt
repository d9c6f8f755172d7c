-- ===== src/Connection/Clock.antt =====
-- client/src/em/em_connection.c: the offset between the server's clock and the client's.
use mathlib.Core.List.{Memᴰ, foldl}
use electric_maple.Common.{
  ℕ, ◌+◌, ◌*◌, ◌^◌, ◌≤◌, ◌<◌, ◌≡◌, ◌≢◌, refl, sym, subst, ◌⊎◌, inl, inr, not, ◌||◌, List, [], ◌∷◌,
  arith, ltb, ◌==◌, if◌then◌else◌, length, All,
}
use electric_maple.Common.Int.{
  ℤ, pos, magnitude, is_zero, i64, sub_u64, i64-sub_u64, ◌-ℤ◌, wrap64, ltℤ,
}
use electric_maple.Connection.{Connection}

-- `*(uint64_t *)bytes` on a little-endian machine.
unfoldable pub word_le : List ℕ → ℕ
word_le [] = 0
word_le (b ∷ bs) = b + 256 * word_le bs

-- `(int64_t)client_now - (int64_t)server_now`, wrapping as the compilers in use do it.
unfoldable pub offset_between : ℕ → ℕ → ℤ
offset_between client_now server_now = i64 (sub_u64 client_now server_now)

-- `labs` of a 64-bit long, which wraps as the compilers in use do it: the least long has no positive
-- counterpart and stays what it is.
unfoldable pub labs : ℤ → ℤ
labs o = wrap64 (pos (magnitude o))

unfoldable pub emconn_data_channel_message_data_cb : ℕ → List ℕ → Connection → Connection
emconn_data_channel_message_data_cb client_now bytes c =
    if not (length bytes == 8)
    then c
    else let o = offset_between client_now (word_le bytes) in
      if is_zero c.server_offset || ltℤ (labs o) (labs c.server_offset)
      then record c { server_offset = o }
      else c

unfoldable pub em_connection_get_server_clock_offset : Connection → ℤ
em_connection_get_server_clock_offset c = c.server_offset

-- Messages in the order of their arrival, each with the client's clock at that time.
abbrev pub Messages : Type 0
Messages = List (ℕ × List ℕ)

unfoldable pub receive_all : Messages → Connection → Connection
receive_all [] c = c
receive_all ((now, bytes) ∷ ms) c = receive_all ms (emconn_data_channel_message_data_cb now bytes c)

-- The offsets that messages of eight bytes report.
unfoldable pub reported : Messages → List ℤ
reported [] = []
reported ((now, bytes) ∷ ms) =
    let rest = reported ms in
    if length bytes == 8 then offset_between now (word_le bytes) ∷ rest else rest

-- Not 0, and not the least long.
abbrev pub IsUsable : ℤ → Type 0
IsUsable o = (0 < magnitude o) × (magnitude o < 2 ^ 63)

-- `o` is one of `os`, and none of them is nearer to 0.
abbrev pub IsNearest : ℤ → List ℤ → Type 0
IsNearest o os = Memᴰ o os × All (λ p. magnitude o ≤ magnitude p) os

All-mono :
    {m n : ℕ} (os : List ℤ) → m ≤ n → All (λ p. n ≤ magnitude p) os → All (λ p. m ≤ magnitude p) os
All-mono [] h a = tt
All-mono {m} {n} (o ∷ os) h a = (omega arith, All-mono {m = m} {n = n} os h a.1)

-- What one reported offset does to the offset in use.
merge : ℤ → ℤ → ℤ
merge old o = if is_zero old || ltℤ (labs o) (labs old) then o else old

server_offset-message :
    (now : ℕ) (bytes : List ℕ) (c : Connection)
    → (emconn_data_channel_message_data_cb now bytes c).server_offset ≡ (
        if length bytes == 8
        then merge c.server_offset (offset_between now (word_le bytes))
        else c.server_offset)
unfolding emconn_data_channel_message_data_cb merge
server_offset-message now bytes c = ground arith

server_offset-receive_all :
    (ms : Messages) (c : Connection)
    → (receive_all ms c).server_offset ≡ foldl merge c.server_offset (reported ms)
unfolding receive_all reported
server_offset-receive_all [] c = refl
server_offset-receive_all ((now, bytes) ∷ ms) c = ground (
  arith,
  server_offset-message now bytes c,
  server_offset-receive_all ms (emconn_data_channel_message_data_cb now bytes c),
)

labs-usable : (o : ℤ) → IsUsable o → labs o ≡ pos (magnitude o)
unfolding labs
labs-usable o (n, b) = ground arith

nearer-usable :
    (o p : ℤ) → IsUsable o → IsUsable p → ltℤ (labs o) (labs p) ≡ ltb (magnitude o) (magnitude p)
nearer-usable o p m n = rw (labs-usable o m, labs-usable p n) (ground arith)

merge_cases :
    (o p : ℤ)
    → IsUsable o
    → IsUsable p
    → ((merge o p ≡ p) × (magnitude p ≤ magnitude o))
      ⊎ ((merge o p ≡ o) × (magnitude o ≤ magnitude p))
unfolding merge
merge_cases o p n m = ground (arith, nearer-usable p o m n)

skip_second : {x o : ℤ} (p : ℤ) {os : List ℤ} → Memᴰ x (o ∷ os) → Memᴰ x (o ∷ p ∷ os)
skip_second p (Memᴰ.head e) = Memᴰ.head e
skip_second p (Memᴰ.tail m) = Memᴰ.tail (Memᴰ.tail m)

foldl-merge-IsNearest :
    (o : ℤ) (os : List ℤ) → IsUsable o → All IsUsable os → IsNearest (foldl merge o os) (o ∷ os)
foldl-merge-IsNearest o [] n a = (Memᴰ.head refl, (omega arith, tt))
foldl-merge-IsNearest o (p ∷ os) n (np, a) = elim (merge_cases o p n np) [
  | inl (e, h) ↦
      let (m, l) = foldl-merge-IsNearest p os np a in
      subst (λ t. IsNearest (foldl merge t os) (o ∷ p ∷ os)) (sym e) (Memᴰ.tail m, (omega arith, l))
  | inr (e, h) ↦
      let (m, l) = foldl-merge-IsNearest o os n a in
      subst (λ t. IsNearest (foldl merge t os) (o ∷ p ∷ os)) (sym e)
        (skip_second p m, (l.0, (omega arith, l.1)))
]

merge_first : (o : ℤ) → merge (pos 0) o ≡ o
unfolding merge
merge_first o = refl

-- From an offset that is not set (0), after messages of which at least one has eight bytes and none
-- reports the offset 0 or -2^63, whose `labs` overflows, the offset in use is one of those reported, and no reported one is nearer to 0.
pub server_offset-IsNearest :
    (ms : Messages) (c : Connection)
    → c.server_offset ≡ pos 0
    → reported ms ≢ []
    → All IsUsable (reported ms)
    → IsNearest (em_connection_get_server_clock_offset (receive_all ms c)) (reported ms)
unfolding em_connection_get_server_clock_offset
server_offset-IsNearest ms c z ne a =
    rw (server_offset-receive_all ms c, z) (from_unset (reported ms) ne a)
  where
    from_unset : (os : List ℤ) → os ≢ [] → All IsUsable os → IsNearest (foldl merge (pos 0) os) os
    from_unset [] ne a = absurd (ne refl)
    from_unset (o ∷ os) ne (n, a) =
        subst (λ t. IsNearest (foldl merge t os) (o ∷ os)) (sym (merge_first o))
          (foldl-merge-IsNearest o os n a)

-- While both clocks are below 2^63 ns, the offset that a message reports is the difference between the
-- client's clock and the server's.
pub offset_between_exact :
    (client_now server_now : ℕ)
    → client_now < 2 ^ 63
    → server_now < 2 ^ 63
    → offset_between client_now server_now ≡ pos client_now -ℤ pos server_now
unfolding offset_between
offset_between_exact client_now server_now h k = i64-sub_u64 client_now server_now h k

-- ===== src/Signaling/Clients.antt =====
-- server/src/ems/gst/ems_signaling_server.c: the list of websocket clients.
use Prim.Native.String.{String}
use electric_maple.Common.{
  ℕ, ◌+◌, ◌-◌, ◌<◌, ◌≡◌, refl, sym, ◌↔◌, true, List, [], ◌∷◌, ◌++◌, arith, ◌==◌, if◌then◌else◌,
}
use electric_maple.Signaling.{
  Server, slist_remove, slist_find, add_websocket_connection, websocket_cb,
  remove_websocket_connection, ws_closed_cb,
}

-- A websocket opens, with its address, or closes.
pub data Change : Type 0 where
  opened : ℕ → String → Change
  shut : ℕ → Change

-- The server handles the changes in order.
unfoldable pub handle_change : Type 0 → Change → Server → Server
handle_change Text (opened k address) s = (websocket_cb Text k address s).0
handle_change Text (shut k) s = (ws_closed_cb Text k s).0

unfoldable pub run : Type 0 → List Change → Server → Server
run Text [] s = s
run Text (e ∷ es) s = run Text es (handle_change Text e s)

-- How often `k` stands in a list of clients.
unfoldable pub count : ℕ → List ℕ → ℕ
count k [] = 0
count k (c ∷ cs) = let rest = count k cs in if c == k then rest + 1 else rest

-- The connections of `k` that are open after the changes, from `n` before them.
unfoldable pub tally : ℕ → List Change → ℕ → ℕ
tally k [] n = n
tally k (opened c address ∷ es) n = tally k es (if c == k then n + 1 else n)
tally k (shut c ∷ es) n = tally k es (if c == k then n - 1 else n)

count-append :
    (k c : ℕ) (cs : List ℕ)
    → count k (cs ++ (c ∷ [])) ≡ (if c == k then count k cs + 1 else count k cs)
unfolding count
count-append k c [] = ground arith
count-append k c (d ∷ cs) = ground (arith, count-append k c cs)

count-remove :
    (k c : ℕ) (cs : List ℕ)
    → count k (slist_remove c cs) ≡ (if c == k then count k cs - 1 else count k cs)
unfolding count slist_remove
count-remove k c [] = ground arith
count-remove k c (d ∷ cs) = ground (arith, count-remove k c cs)

slist_find_lem : (k : ℕ) (cs : List ℕ) → (slist_find k cs ≡ true) ↔ (0 < count k cs)
unfolding slist_find count
slist_find_lem k [] = ground arith
slist_find_lem k (c ∷ cs) = ground (arith, slist_find_lem k cs)

count-run :
    (Text : Type 0) (k : ℕ) (es : List Change) (s : Server)
    → count k (run Text es s).websocket_connections ≡ tally k es (count k s.websocket_connections)
unfolding run tally handle_change websocket_cb add_websocket_connection ws_closed_cb
    remove_websocket_connection
count-run Text k [] s = refl
count-run Text k (opened c address ∷ es) s = rw (
  count-run Text k es (handle_change Text (opened c address) s),
  count-append k c s.websocket_connections,
)
count-run Text k (shut c ∷ es) s =
    rw (
      count-run Text k es (handle_change Text (shut c) s),
      count-remove k c s.websocket_connections,
    )

-- After any sequence of websockets that open and close, the server finds a client exactly when its count
-- is positive, which starts at the client's connections in the list before, goes up by one when the client
-- opens a websocket, and goes down by one, but not below 0, when it closes one.
pub found_iff_open :
    (Text : Type 0) (k : ℕ) (es : List Change) (s : Server)
    → (slist_find k (run Text es s).websocket_connections ≡ true)
      ↔ (0 < tally k es (count k s.websocket_connections))
found_iff_open Text k es s =
    rw (sym (count-run Text k es s)) (slist_find_lem k (run Text es s).websocket_connections)

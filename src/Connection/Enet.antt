-- ===== src/Connection/Enet.antt =====
-- client/src/em/em_connection.c: no packet is lost between `em_connection_send_bytes_via_enet` and the
-- ENet thread, and each is sent or destroyed.
use electric_maple.Common.{
  ℕ, ◌≡◌, refl, sym, ◌∙◌, ap, subst, Bool, true, Option, none, some, List, [], ◌∷◌, ◌++◌, ◌+◌,
  false, arith, is_some, Bool-cases, Option-cases, inl, inr,
}
use electric_maple.Connection.{Connection, Call, peer_send, packet_destroy, host_flush, Outcome, ok}
use electric_maple.Connection.Send.{
  em_connection_send_bytes_via_enet, send_queued, EnetEvent, receive, handle_events,
  handle_enet_event, enet_round, queued, emptied,
}
use electric_maple.Connection.References.{hit}
use mathlib.Core.List.{append_assoc, append-nil}

-- The packets given to `enet_peer_send`, oldest first, whether or not it accepted them.
pub offered : List Call → List ℕ
offered [] = []
offered (peer_send _ p _ ∷ cs) = offered cs ++ (p ∷ [])
offered (_ ∷ cs) = offered cs

-- How often a packet was refused, how often it was destroyed, and how often ENet reports it as received.
pub refused : ℕ → List Call → ℕ
refused h [] = 0
refused h (peer_send _ p false ∷ cs) = hit h p + refused h cs
refused h (_ ∷ cs) = refused h cs

pub destroyed : ℕ → List Call → ℕ
destroyed h [] = 0
destroyed h (packet_destroy p ∷ cs) = hit h p + destroyed h cs
destroyed h (_ ∷ cs) = destroyed h cs

pub received : ℕ → List EnetEvent → ℕ
received h [] = 0
received h (receive p ∷ es) = hit h p + received h es
received h (_ ∷ es) = received h es

offered-send_queued :
    (accepts : ℕ → Bool) (peer : Option ℕ) (q : List ℕ) (cs : List Call)
    → offered (send_queued accepts peer q cs) ≡ offered cs ++ q
unfolding send_queued offered
offered-send_queued accepts peer [] cs = sym (append-nil (offered cs))
offered-send_queued accepts peer (p ∷ q) cs = elim (Bool-cases (accepts p)) [
  | inl e ↦
      rw (e, offered-send_queued accepts peer q (peer_send peer p true ∷ cs))
        (append_assoc (offered cs) (p ∷ []) q)
  | inr e ↦
      rw (e, offered-send_queued accepts peer q (packet_destroy p ∷ peer_send peer p false ∷ cs))
        (append_assoc (offered cs) (p ∷ []) q)
]

offered-handle_events :
    (es : List EnetEvent) (cs : List Call) → offered (handle_events es cs) ≡ offered cs
unfolding handle_events handle_enet_event offered
offered-handle_events [] cs = refl
offered-handle_events (receive p ∷ es) cs = offered-handle_events es (packet_destroy p ∷ cs)
offered-handle_events (_ ∷ es) cs = offered-handle_events es cs

offered-round :
    (accepts : ℕ → Bool) (events : List EnetEvent) (peer : Option ℕ) (h : ℕ) (q : List ℕ)
    (cs : List Call)
    → offered (handle_events events (host_flush h ∷ send_queued accepts peer q cs))
      ≡ offered cs ++ q
unfolding offered
offered-round accepts events peer h q cs =
    offered-handle_events events (host_flush h ∷ send_queued accepts peer q cs)
    ∙ offered-send_queued accepts peer q cs

-- From the calls `cs` to the calls `ds`, a packet was destroyed as often as it was refused, and `n` times
-- besides.
abbrev IsSettled : ℕ → ℕ → List Call → List Call → Type 0
IsSettled h n cs ds = destroyed h ds + refused h cs ≡ destroyed h cs + refused h ds + n

send_queued-IsSettled :
    (h : ℕ) (accepts : ℕ → Bool) (peer : Option ℕ) (q : List ℕ) (cs : List Call)
    → IsSettled h 0 cs (send_queued accepts peer q cs)
unfolding send_queued destroyed refused
send_queued-IsSettled h accepts peer [] cs = omega arith
send_queued-IsSettled h accepts peer (p ∷ q) cs = elim (Bool-cases (accepts p)) [
  | inl e ↦
      rw e (omega (arith, send_queued-IsSettled h accepts peer q (peer_send peer p true ∷ cs)))
  | inr e ↦ rw e (
      omega (
        arith,
        send_queued-IsSettled h accepts peer q (packet_destroy p ∷ peer_send peer p false ∷ cs),
      ))
]

handle_events-IsSettled :
    (h : ℕ) (es : List EnetEvent) (cs : List Call)
    → IsSettled h (received h es) cs (handle_events es cs)
unfolding handle_events handle_enet_event destroyed refused received
handle_events-IsSettled h [] cs = omega arith
handle_events-IsSettled h (receive p ∷ es) cs =
    omega (arith, handle_events-IsSettled h es (packet_destroy p ∷ cs))
handle_events-IsSettled h (_ ∷ es) cs = handle_events-IsSettled h es cs

round-IsSettled :
    (k : ℕ) (accepts : ℕ → Bool) (events : List EnetEvent) (peer : Option ℕ) (h : ℕ) (q : List ℕ)
    (cs : List Call)
    → IsSettled k
        (received k events)
        cs
        (handle_events events (host_flush h ∷ send_queued accepts peer q cs))
unfolding destroyed refused
round-IsSettled k accepts events peer h q cs = omega (
  arith,
  handle_events-IsSettled k events (host_flush h ∷ send_queued accepts peer q cs),
  send_queued-IsSettled k accepts peer q cs,
)

queued-emptied : (q : Option (List ℕ)) → queued (emptied q) ≡ []
queued-emptied none = refl
queued-emptied (some q) = refl

-- A round of the running ENet thread.
enet_round_lem :
    (k : ℕ) (accepts : ℕ → Bool) (events : List EnetEvent) (c : Connection)
    → c.enet_running ≡ true
    → is_some c.client ≡ true
    → let d = enet_round accepts events c in
      (offered d.calls ≡ offered c.calls ++ queued c.packet_queue)
      × IsSettled k (received k events) c.calls d.calls
      × (queued d.packet_queue ≡ [])
unfolding enet_round
enet_round_lem k accepts events c r h = elim (Option-cases c.client) [
  | inl e ↦ cc
  | inr (host, e) ↦
      rw (r, e)
        (
          offered-round accepts events c.peer host (queued c.packet_queue) c.calls,
          round-IsSettled k accepts events c.peer host (queued c.packet_queue) c.calls,
          queued-emptied c.packet_queue,
        )
]

-- What the two threads do: the application sends a packet, or the ENet thread makes a round.
pub data Turn : Type 0 where
  push : ℕ → Turn
  round : (ℕ → Bool) → List EnetEvent → Turn

abbrev pub keep : Connection → Outcome (Bool × Connection) → Connection
keep c (ok (_, d)) = d
keep c _ = c

unfoldable pub take_turn : Turn → Connection → Connection
take_turn (push p) c = keep c (em_connection_send_bytes_via_enet (some p) c)
take_turn (round accepts events) c = enet_round accepts events c

unfoldable pub take_turns : List Turn → Connection → Connection
take_turns [] c = c
take_turns (t ∷ ts) c = take_turns ts (take_turn t c)

pub pushed : List Turn → List ℕ
pushed [] = []
pushed (push p ∷ ts) = p ∷ pushed ts
pushed (round _ _ ∷ ts) = pushed ts

-- The thread runs, with a host and a queue.
pub record IsServing (c : Connection) : Type 0 where
  pub running : c.enet_running ≡ true
  pub has_host : is_some c.client ≡ true
  pub has_queue : is_some c.packet_queue ≡ true

-- How often ENet reports a packet as received in the rounds.
pub arrived : ℕ → List Turn → ℕ
arrived h [] = 0
arrived h (push _ ∷ ts) = arrived h ts
arrived h (round _ events ∷ ts) = received h events + arrived h ts

-- All packets that were handed over, in order: those given to ENet, then those that wait.
abbrev pub handed : Connection → List ℕ
handed c = offered c.calls ++ queued c.packet_queue

take_turn-IsServing : (t : Turn) (c : Connection) → IsServing c → IsServing (take_turn t c)
unfolding take_turn em_connection_send_bytes_via_enet enet_round
take_turn-IsServing (push p) c v = ground arith
take_turn-IsServing (round accepts events) c v = ground arith

push_lem :
    (h p : ℕ) (c : Connection)
    → IsServing c
    → let d = take_turn (push p) c in (handed d ≡ handed c ++ (p ∷ [])) × (d.calls ≡ c.calls)
unfolding take_turn em_connection_send_bytes_via_enet
push_lem h p c v = elim (Option-cases c.packet_queue) [
  | inl e ↦ cc (v.has_queue)
  | inr (q, e) ↦ rw e (sym (append_assoc (offered c.calls) q (p ∷ [])), refl)
]

round_lem :
    (h : ℕ) (accepts : ℕ → Bool) (events : List EnetEvent) (c : Connection)
    → IsServing c
    → let d = take_turn (round accepts events) c in
      (handed d ≡ handed c) × IsSettled h (received h events) c.calls d.calls
unfolding take_turn
round_lem h accepts events c v =
    let (s, w, q) = enet_round_lem h accepts events c v.running v.has_host in
    (rw (s, q) (append-nil (handed c)), w)

-- However sends and rounds of the serving thread interleave, the packets given to `enet_peer_send`,
-- followed by those that wait, are the ones from before followed by the pushed ones, in the order of the
-- pushes; and each packet is destroyed as often as ENet refuses it and reports it as received, so none
-- that ENet accepts.
pub enet_fifo :
    (h : ℕ) (ts : List Turn) (c : Connection)
    → IsServing c
    → let d = take_turns ts c in
      (handed d ≡ handed c ++ pushed ts)
      × (destroyed h d.calls + refused h c.calls
          ≡ destroyed h c.calls + refused h d.calls + arrived h ts)
unfolding take_turns pushed arrived
enet_fifo h [] c v = (sym (append-nil (handed c)), omega arith)
enet_fifo h (push p ∷ ts) c v =
    let (fifo, settled) =
      enet_fifo h ts (take_turn (push p) c) (take_turn-IsServing (push p) c v) in
    let (kept, same) = push_lem h p c v in
    (
      fifo ∙ ap (λ t. t ++ pushed ts) kept ∙ append_assoc (handed c) (p ∷ []) (pushed ts),
      subst
          (λ cs.
            destroyed h (take_turns ts (take_turn (push p) c)).calls + refused h cs
            ≡ destroyed h cs
              + refused h (take_turns ts (take_turn (push p) c)).calls
              + arrived h ts)
          same settled,
    )
enet_fifo h (round a es ∷ ts) c v =
    let (fifo, settled) =
      enet_fifo h ts (take_turn (round a es) c) (take_turn-IsServing (round a es) c v) in
    let (kept, here) = round_lem h a es c v in
    (fifo ∙ ap (λ t. t ++ pushed ts) kept, omega (arith, settled, here))

-- ===== src/App/Polling.antt =====
-- client/src/main.cpp: the polls of the events end, and the session follows its states.
use electric_maple.Common.{
  ℕ, suc, zero, ◌+◌, ◌<◌, ◌≡◌, refl, ap, sym, subst, ◌∙◌, Bool, true, false, not, Option, none,
  some, List, [], ◌∷◌, ltb, if◌then◌else◌, arith,
}
use electric_maple.Source.{option_map}
use electric_maple.App.{
  EmState, AndroidApp, SessionState, ready, stopping, unknown, idle, synchronized, visible, focused,
  loss_pending, exiting, session_code, AppCall, begin_session, end_session, sleep, PollResult,
  negative, process, ends_loop, poll_android, handle_xr_event, poll_xr, Actions, read_actions,
  after_events, polled, poll_events,
}

-- Two runs of the loop return the same.
abbrev pub Agree {ℓ} : {A : Type ℓ} → Option A → Option A → Type ℓ
Agree {A = A} o p = (a : A) × (o ≡ some a) × (p ≡ some a)

if-Agree {ℓ} :
    {A : Type ℓ} (b : Bool) (a : A) (o p : Option A)
    → Agree o p
    → Agree (if b then some a else o) (if b then some a else p)
if-Agree true a o p h = (a, refl, refl)
if-Agree false a o p h = h

poll_agrees :
    (poll : ℕ → PollResult) (n i f g : ℕ) (p : AndroidApp × EmState)
    → poll (i + n) ≡ negative
    → n < f
    → n < g
    → Agree (poll_android f poll i p) (poll_android g poll i p)
unfolding poll_android ends_loop process
poll_agrees poll n i zero g p e a b = let z : ⊥ = omega (arith, a) in elim z [ ]
poll_agrees poll n i (suc f) zero p e a b = let z : ⊥ = omega (arith, b) in elim z [ ]
poll_agrees poll zero i (suc f) (suc g) p e a b =
    subst
      (λ r.
        Agree
          (if ends_loop r p.0 (process r p).0
            then some (process r p)
            else poll_android f poll (suc i) (process r p))
          (if ends_loop r p.0 (process r p).0
            then some (process r p)
            else poll_android g poll (suc i) (process r p)))
      (sym (subst (λ k. poll k ≡ negative) (omega arith) e)) (p, refl, refl)
poll_agrees poll (suc n) i (suc f) (suc g) p e a b =
    if-Agree (ends_loop (poll i) p.0 (process (poll i) p).0) (process (poll i) p) _ _ (
      poll_agrees poll n (suc i) f g (process (poll i) p)
        (subst (λ k. poll k ≡ negative) (omega arith) e) (omega arith) (omega arith))

-- When some poll of the looper has a negative result, the fuel does not matter: any two numbers above that of
-- the poll give the same.
pub poll_terminates :
    (poll : ℕ → PollResult) (n f g : ℕ) (es : List (Option SessionState)) (a : Actions)
    (p : AndroidApp × EmState)
    → poll n ≡ negative
    → n < f
    → n < g
    → Agree (poll_events f poll es a p) (poll_events g poll es a p)
unfolding poll_events
poll_terminates poll n f g es a p e u v =
    let (r, x, y) =
      poll_agrees poll n 0 f g p (subst (λ k. poll k ≡ negative) (omega arith) e) u v in
    (polled es a r, ap (option_map (polled es a)) x, ap (option_map (polled es a)) y)

-- The last state of the session's events, and how many of them begin and end the session.
unfoldable pub last_state : List (Option SessionState) → SessionState → SessionState
last_state [] old = old
last_state (none ∷ es) old = last_state es old
last_state (some s ∷ es) old = last_state es s

unfoldable pub count_ready : List (Option SessionState) → ℕ
count_ready [] = 0
count_ready (some ready ∷ es) = 1 + count_ready es
count_ready (_ ∷ es) = count_ready es

unfoldable pub count_stopping : List (Option SessionState) → ℕ
count_stopping [] = 0
count_stopping (some stopping ∷ es) = 1 + count_stopping es
count_stopping (_ ∷ es) = count_stopping es

unfoldable pub begun : List AppCall → ℕ
begun [] = 0
begun (begin_session ∷ calls) = 1 + begun calls
begun (_ ∷ calls) = begun calls

unfoldable pub ended : List AppCall → ℕ
ended [] = 0
ended (end_session ∷ calls) = 1 + ended calls
ended (_ ∷ calls) = ended calls

abbrev IsFollowed : List (Option SessionState) → EmState → EmState → Type 0
IsFollowed es s s' =
    (s'.session_state ≡ last_state es s.session_state)
    × (begun s'.calls ≡ count_ready es + begun s.calls)
    × (ended s'.calls ≡ count_stopping es + ended s.calls)

poll_xr-IsFollowed :
    (es : List (Option SessionState)) (s : EmState) → IsFollowed es s (poll_xr es s)
unfolding poll_xr handle_xr_event last_state count_ready count_stopping begun ended
poll_xr-IsFollowed [] s = (refl, omega arith, omega arith)
poll_xr-IsFollowed (none ∷ es) s = poll_xr-IsFollowed es s
poll_xr-IsFollowed (some unknown ∷ es) s = poll_xr-IsFollowed es _
poll_xr-IsFollowed (some idle ∷ es) s = poll_xr-IsFollowed es _
poll_xr-IsFollowed (some ready ∷ es) s =
    let (a, b, c) = poll_xr-IsFollowed es (handle_xr_event (some ready) s) in
    (a, omega (arith, b), c)
poll_xr-IsFollowed (some synchronized ∷ es) s = poll_xr-IsFollowed es _
poll_xr-IsFollowed (some visible ∷ es) s = poll_xr-IsFollowed es _
poll_xr-IsFollowed (some focused ∷ es) s = poll_xr-IsFollowed es _
poll_xr-IsFollowed (some stopping ∷ es) s =
    let (a, b, c) = poll_xr-IsFollowed es (handle_xr_event (some stopping) s) in
    (a, b, omega (arith, c))
poll_xr-IsFollowed (some loss_pending ∷ es) s = poll_xr-IsFollowed es _
poll_xr-IsFollowed (some exiting ∷ es) s = poll_xr-IsFollowed es _

-- What the test of the state decides.
abbrev IsDecided : EmState → Bool × EmState → Type 0
IsDecided s (b, s') =
    (b ≡ not (ltb (session_code s.session_state) 2))
    × (s'.session_state ≡ s.session_state)
    × (begun s'.calls ≡ begun s.calls)
    × (ended s'.calls ≡ ended s.calls)

after_events-IsDecided : (a : Actions) (s : EmState) → IsDecided s (after_events a s)
unfolding after_events read_actions begun ended session_code
after_events-IsDecided a s = pick (ltb (session_code s.session_state) 2) refl
  where
    pick :
        (b : Bool)
        → ltb (session_code s.session_state) 2 ≡ b
        → IsDecided s
            (if b then (false, record s { calls = sleep ∷ s.calls }) else (true, read_actions a s))
    pick true e = (sym (ap not e), refl, refl, refl)
    pick false e = (sym (ap not e), refl, refl, refl)

-- After any events of OpenXR the session's state is that of the last one that has a state, the session was
-- begun once for each READY and ended once for each STOPPING among them, and the application goes on to
-- render exactly if the state is READY or a later one.
pub session_followed :
    (es : List (Option SessionState)) (a : Actions) (s : EmState)
    → let (b, s') = after_events a (poll_xr es s) in
      (b ≡ not (ltb (session_code (last_state es s.session_state)) 2))
      × (s'.session_state ≡ last_state es s.session_state)
      × (begun s'.calls ≡ count_ready es + begun s.calls)
      × (ended s'.calls ≡ count_stopping es + ended s.calls)
session_followed es a s =
    let (b, t, u, v) = after_events-IsDecided a (poll_xr es s) in
    let (x, y, z) = poll_xr-IsFollowed es s in
    (b ∙ ap (λ q. not (ltb (session_code q) 2)) x, t ∙ x, u ∙ y, v ∙ z)

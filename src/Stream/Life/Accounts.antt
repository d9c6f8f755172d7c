-- ===== src/Stream/Life/Accounts.antt =====
-- client/src/em/em_stream_client.c: the references of a stream client, and its thread.
use electric_maple.Common.{
  ℕ, ◌+◌, ◌≡◌, refl, Bool, true, Option, none, some, List, [], ◌∷◌, arith, if-elim, if◌then◌else◌,
}
use electric_maple.Common.Int.{ℤ}
use electric_maple.Connection.References.{hit, at}
use electric_maple.Stream.{StreamClient}
use electric_maple.Stream.Life.{
  Life, Thread, Egl, Ended, ended, waits, em_stream_client_new, em_stream_client_set_egl_context,
  em_stream_client_set_connection, em_stream_client_spawn_thread, stop_life, settle, clear_fields,
  em_stream_client_finalize, clear, clear_ended,
}

abbrev pub count : ℕ → List ℕ → ℕ
count h [] = 0
count h (k ∷ ks) = hit h k + count h ks

abbrev pub held : ℕ → Life → ℕ
held h l =
    at h l.connection + at h l.gst_gl_display + at h l.gst_gl_wrapped_context + at h l.egl_context

-- What happens to a client between its creation and its end: the functions of the library that change the
-- fields of `StreamClient` (samples, pulls, the pipeline) may do so in any way.
pub data Step (l : Life) : Life → Type 0 where
  sets_egl : (e : Egl) → Step l (em_stream_client_set_egl_context e l)
  connects : (k : Option ℕ) → Step l (em_stream_client_set_connection k l)
  spawns : (k : Option ℕ) {m : Life} → em_stream_client_spawn_thread true k l ≡ some m → Step l m
  works : (sc : StreamClient) → Step l (record l { client = sc })

pub data Reach (l : Life) : Life → Type 0 where
  here : Reach l l
  next : {m n : Life} → Reach l m → Step m n → Reach l n

-- The references that no field gives back once an EGL context is set: those of the fields that are
-- overwritten, and the second ones to the new display and wrapped context.
abbrev pub lost_egl : ℕ → Egl → Life → ℕ
lost_egl h e l =
    at h l.egl_context
    + (if e.makes_current
        then at h l.gst_gl_display
          + at h l.gst_gl_wrapped_context
          + (at h (some e.display) + at h (some e.wrapped))
        else 0)

abbrev pub lost_by : ℕ → {l m : Life} → Step l m → ℕ
lost_by h {l} (sets_egl e) = lost_egl h e l
lost_by h (connects k) = 0
lost_by h (spawns k e) = 0
lost_by h (works sc) = 0

abbrev pub lost_refs : ℕ → {l m : Life} → Reach l m → ℕ
lost_refs h here = 0
lost_refs h (next r s) = lost_refs h r + lost_by h s

-- Each reference taken to `h` was dropped, is held or is one of `n` that are lost.
abbrev IsHeld : ℕ → ℕ → Life → Type 0
IsHeld h n l = count h l.taken ≡ count h l.dropped + held h l + n

count-clear : (h : ℕ) (o : Option ℕ) (ks : List ℕ) → count h (clear o ks) ≡ at h o + count h ks
count-clear h none ks = omega arith
count-clear h (some k) ks = refl

set_connection-IsHeld :
    (h n : ℕ) (k : Option ℕ) (l : Life)
    → IsHeld h n l
    → IsHeld h n (em_stream_client_set_connection k l)
unfolding em_stream_client_set_connection
set_connection-IsHeld h n none l v = omega (arith, v, count-clear h l.connection l.dropped)
set_connection-IsHeld h n (some k) l v = omega (arith, v, count-clear h l.connection l.dropped)

set_egl-IsHeld :
    (h n : ℕ) (e : Egl) (l : Life)
    → IsHeld h n l
    → IsHeld h (n + lost_egl h e l) (em_stream_client_set_egl_context e l)
unfolding em_stream_client_set_egl_context
set_egl-IsHeld h n e l v = ground arith

Step-IsHeld : {l m : Life} (h n : ℕ) (s : Step l m) → IsHeld h n l → IsHeld h (n + lost_by h s) m
unfolding em_stream_client_spawn_thread
Step-IsHeld {l} h n (sets_egl e) v = set_egl-IsHeld h n e l v
Step-IsHeld {l} h n (connects k) v = omega (arith, set_connection-IsHeld h n k l v)
Step-IsHeld {l} h n (spawns k e) v = let c = set_connection-IsHeld h n k l v in ground arith
Step-IsHeld h n (works sc) v = omega arith

Reach-IsHeld : {l m : Life} (h : ℕ) (r : Reach l m) → IsHeld h 0 l → IsHeld h (lost_refs h r) m
Reach-IsHeld h here v = v
Reach-IsHeld h (next r s) v = Step-IsHeld h (lost_refs h r) s (Reach-IsHeld h r v)

new-IsHeld :
    (h : ℕ) (ready : Bool) (now : ℤ) {l : Life}
    → em_stream_client_new ready now ≡ some l
    → IsHeld h 0 l
unfolding em_stream_client_new
new-IsHeld h ready now e = ground arith

clear_fields-count :
    (h n : ℕ) (l : Life)
    → IsHeld h n l
    → count h (clear_fields l).taken
      ≡ count h (clear_fields l).dropped + at h l.gst_gl_wrapped_context + n
unfolding clear_fields
clear_fields-count h n l v =
    let a = count-clear h l.connection l.dropped in
    let b = count-clear h l.gst_gl_display (clear l.connection l.dropped) in
    let c = count-clear h l.egl_context (clear l.gst_gl_display (clear l.connection l.dropped)) in
    omega (arith, v, a, b, c)

-- A call that comes back leaves a client of which `P` holds.
abbrev pub Leaves : (Life → Type 0) → Ended → Type 0
Leaves P (ended m) = P m
Leaves P (waits m) = Unit

finalize-Leaves :
    (h n : ℕ) (returns : Thread → Bool) (l : Life)
    → IsHeld h n l
    → Leaves
        (λ m. count h m.taken ≡ count h m.dropped + at h l.gst_gl_wrapped_context + n)
        (em_stream_client_finalize returns l)
unfolding em_stream_client_finalize stop_life settle
finalize-Leaves h n returns l v =
    let P : Ended → Type 0 = λ e.
      Leaves (λ m. count h m.taken ≡ count h m.dropped + at h l.gst_gl_wrapped_context + n)
        (clear_ended e) in
    let cleared : (t : Thread) → P (ended (settle (record l { play_thread = t }))) =
      λ t. clear_fields-count h n (settle (record l { play_thread = t })) v in
    if-elim P l.client.pipeline (if-elim P (returns l.play_thread) (cleared Thread.returned) tt)
      (cleared l.play_thread)

-- In every state that a new stream client can reach, each reference that it took to an EGL context, a
-- display, a wrapped context or a connection was dropped, is the one that a field still holds, or is lost:
-- setting an EGL context loses what the fields that it overwrites held, and, if the context can be made
-- current, a second reference each to the new display and wrapped context. When the finalization comes
-- back, all were dropped but the lost ones and the one to the wrapped context.
pub references_held :
    (h : ℕ) (ready : Bool) (now : ℤ) (returns : Thread → Bool) {l m : Life}
    → em_stream_client_new ready now ≡ some l
    → (r : Reach l m)
    → (count h m.taken ≡ count h m.dropped + held h m + lost_refs h r)
      × Leaves
          (λ d. count h d.taken ≡ count h d.dropped + at h m.gst_gl_wrapped_context + lost_refs h r)
          (em_stream_client_finalize returns m)
references_held h ready now returns {m = m} e r =
    let v = Reach-IsHeld h r (new-IsHeld h ready now e) in
    (v, finalize-Leaves h (lost_refs h r) returns m v)

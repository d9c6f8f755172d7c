-- ===== src/Compositor/Message.antt =====
-- server/src/ems/ems_compositor.cpp: what a command buffer that cannot be begun leads to.
use electric_maple.Common.{
  ℕ, ◌≡◌, refl, sym, subst, Bool, true, false, Option, none, some, ◌==◌, if◌then◌else◌, if-elim,
}
use electric_maple.Common.Int.{ℤ}
use electric_maple.Config.{Size}
use electric_maple.Compositor.{
  Layer, Compositor, PackEnv, log, set_offset, with_frame, begin_commands, submit_commands,
  record_commands, pack_blit_and_encode, lock_pool, get_frame, unref_frame,
}

set_offset-locked :
    (now : ℕ) (c : Compositor) (b : Bool)
    → c.cmd_pool_locked ≡ b
    → (set_offset now c).cmd_pool_locked ≡ b
unfolding set_offset
set_offset-locked now c b e =
    if-elim (λ (d : Compositor). d.cmd_pool_locked ≡ b) (c.offset_ns == 0) e e

-- The compositor after a begin that failed.
abbrev stuck : ℕ → Compositor → Compositor
stuck frame c =
    log (unref_frame frame)
      (log lock_pool (log (get_frame frame) (record c { cmd_pool_locked = true })))

failed_begin_lem :
    (size : Size) (id begin_ns : ℤ) (o : Option ℕ) (e : PackEnv) (l : Layer) (c : Compositor)
    (frame : ℕ)
    → c.cmd_pool_locked ≡ false
    → o ≡ some frame
    → e.begins ≡ false
    → with_frame size id begin_ns o e l c ≡ some (stuck frame c)
unfolding with_frame begin_commands
failed_begin_lem size id begin_ns o e l c frame u f b =
    subst (λ o. with_frame size id begin_ns o e l c ≡ some (stuck frame c)) (sym f)
      (subst
        (λ t.
          (if t then none else begin_commands size id begin_ns frame e l locked)
          ≡ some (stuck frame c))
        (sym u)
        (subst
          (λ t.
            (if t
              then submit_commands id begin_ns frame e l (record_commands size frame l locked)
              else some (log (unref_frame frame) locked))
            ≡ some (stuck frame c))
          (sym b) refl))
  where
    locked : Compositor
    locked = log lock_pool (log (get_frame frame) (record c { cmd_pool_locked = true }))

locked_waits :
    (size : Size) (id begin_ns : ℤ) (o : Option ℕ) (e : PackEnv) (l : Layer) (c : Compositor)
    (frame : ℕ)
    → c.cmd_pool_locked ≡ true
    → o ≡ some frame
    → with_frame size id begin_ns o e l c ≡ none
unfolding with_frame
locked_waits size id begin_ns o e l c frame u f =
    subst (λ o. with_frame size id begin_ns o e l c ≡ none) (sym f)
      (subst
        (λ t.
          (if t
            then none
            else begin_commands size id begin_ns frame e l
                (log lock_pool (log (get_frame frame) (record c { cmd_pool_locked = true }))))
          ≡ none)
        (sym u) refl)

-- When the lock is free and a command buffer cannot be begun for a frame of the pool, the frame is given back
-- and the next layer that gets a frame of the pool waits forever.
pub failed_begin_blocks :
    (size : Size) (id begin_ns : ℤ) (e : PackEnv) (l : Layer) (c : Compositor) (frame : ℕ)
    (id' begin_ns' : ℤ) (e' : PackEnv) (l' : Layer) (frame' : ℕ)
    → c.cmd_pool_locked ≡ false
    → e.unused_frame ≡ some frame
    → e.begins ≡ false
    → e'.unused_frame ≡ some frame'
    → (d : Compositor) × (pack_blit_and_encode size id begin_ns e l c ≡ some d)
      × (pack_blit_and_encode size id' begin_ns' e' l' d ≡ none)
unfolding pack_blit_and_encode
failed_begin_blocks size id begin_ns e l c frame id' begin_ns' e' l' frame' u f b f' = (
  stuck frame (set_offset e.now c),
  failed_begin_lem size id begin_ns e.unused_frame e l (set_offset e.now c) frame
      (set_offset-locked e.now c false u) f b,
  locked_waits size id' begin_ns' e'.unused_frame e' l' _ frame'
      (set_offset-locked e'.now (stuck frame (set_offset e.now c)) true refl) f',
)

-- ===== src/Egl.antt =====
-- client/src/em/render/em_egl_context.c: the EGL objects that the client creates and destroys.
pub mod Binding
use electric_maple.Common.{
  ℕ, ◌≡◌, refl, Bool, true, false, Option, none, some, List, [], ◌∷◌, ◌++◌, if◌then◌else◌, ◌==◌,
}

-- What EGL answers: whether there is a display and it initialises, the number of configs, and the
-- context and the surface that it creates.
pub record EglEnv : Type 0 where
  pub display : Bool
  pub initialized : Bool
  pub num_configs : ℕ
  pub context : Option ℕ
  pub surface : Option ℕ

pub data EglCall : Type 0 where
  create_context create_surface destroy_context destroy_surface : ℕ → EglCall

-- The fields that `finalize` reads.
pub record EmEglContext : Type 0 where
  pub context : Option ℕ
  pub surface : Option ℕ

-- Whether the creation succeeded, the object, and the calls.
pub record Created : Type 0 where
  pub result : Bool
  pub self : EmEglContext
  pub calls : List EglCall

unfoldable pub em_egl_context_init : EmEglContext
em_egl_context_init = record { context = none; surface = none }

abbrev pub failed : Created
failed = record { result = false; self = em_egl_context_init; calls = [] }

unfoldable pub create_pbuffer : ℕ → Option ℕ → Created
create_pbuffer c none = record {
  result = false;
  self = record { context = some c; surface = none };
  calls = create_context c ∷ destroy_context c ∷ [];
}
create_pbuffer c (some s) = record {
  result = true;
  self = record { context = some c; surface = some s };
  calls = create_context c ∷ create_surface s ∷ [];
}

unfoldable pub create_objects : Option ℕ → Option ℕ → Created
create_objects none surface = failed
create_objects (some c) surface = create_pbuffer c surface

unfoldable pub create : EglEnv → Created
create e =
    if e.display
    then if e.initialized
      then if e.num_configs == 0 then failed else create_objects e.context e.surface
      else failed
    else failed

abbrev pub destroy_if : (ℕ → EglCall) → Option ℕ → List EglCall
destroy_if call none = []
destroy_if call (some n) = call n ∷ []

unfoldable pub finalize : EmEglContext → List EglCall
finalize self = destroy_if destroy_surface self.surface ++ destroy_if destroy_context self.context

-- The object, if it is returned, and the calls; a failed creation unrefs the object, which finalizes it.
unfoldable pub em_egl_context_new : EglEnv → Option EmEglContext × List EglCall
em_egl_context_new e =
    let made = create e in
    if made.result then (some made.self, made.calls) else (none, made.calls ++ finalize made.self)

abbrev pub finalize_if : Option EmEglContext × List EglCall → List EglCall
finalize_if (none, calls) = calls
finalize_if (some self, calls) = calls ++ finalize self

-- All calls of an object's life.
unfoldable pub lifetime : EglEnv → List EglCall
lifetime e = finalize_if (em_egl_context_new e)

-- An object that was created and not destroyed, one destroyed that was not there, and so on: the contexts
-- and surfaces that calls create and destroy.
unfoldable pub created_contexts : List EglCall → List ℕ
created_contexts [] = []
created_contexts (create_context c ∷ calls) = c ∷ created_contexts calls
created_contexts (_ ∷ calls) = created_contexts calls

unfoldable pub destroyed_contexts : List EglCall → List ℕ
destroyed_contexts [] = []
destroyed_contexts (destroy_context c ∷ calls) = c ∷ destroyed_contexts calls
destroyed_contexts (_ ∷ calls) = destroyed_contexts calls

unfoldable pub created_surfaces : List EglCall → List ℕ
created_surfaces [] = []
created_surfaces (create_surface s ∷ calls) = s ∷ created_surfaces calls
created_surfaces (_ ∷ calls) = created_surfaces calls

unfoldable pub destroyed_surfaces : List EglCall → List ℕ
destroyed_surfaces [] = []
destroyed_surfaces (destroy_surface s ∷ calls) = s ∷ destroyed_surfaces calls
destroyed_surfaces (_ ∷ calls) = destroyed_surfaces calls

-- How the contexts `cs` are destroyed: where no surface can be created for one, twice.
abbrev pub twice_without : Option ℕ → List ℕ → List ℕ
twice_without none cs = cs ++ cs
twice_without (some s) cs = cs

-- Every surface is destroyed once, and the contexts as often as said.
abbrev pub AreDestroyed : Option ℕ → List EglCall → Type 0
AreDestroyed surface calls =
    (destroyed_surfaces calls ≡ created_surfaces calls)
    × (destroyed_contexts calls ≡ twice_without surface (created_contexts calls))

abbrev life_of : Created → List EglCall
life_of made =
    finalize_if (
      if made.result
      then (some made.self, made.calls)
      else (none, made.calls ++ finalize made.self))

objects-AreDestroyed : (c s : Option ℕ) → AreDestroyed s (life_of (create_objects c s))
unfolding create_objects create_pbuffer finalize em_egl_context_init created_contexts
    destroyed_contexts created_surfaces destroyed_surfaces
objects-AreDestroyed none none = (refl, refl)
objects-AreDestroyed none (some s) = (refl, refl)
objects-AreDestroyed (some c) none = (refl, refl)
objects-AreDestroyed (some c) (some s) = (refl, refl)

failed-AreDestroyed : (s : Option ℕ) → AreDestroyed s (life_of failed)
unfolding finalize em_egl_context_init created_contexts destroyed_contexts created_surfaces
    destroyed_surfaces
failed-AreDestroyed none = (refl, refl)
failed-AreDestroyed (some s) = (refl, refl)

-- Over the life of an EGL context object, whatever EGL answers, each surface that was created is
-- destroyed once; and each context that was created is destroyed once if a surface can be created for it,
-- and otherwise twice.
pub objects_destroyed : (e : EglEnv) → AreDestroyed e.surface (lifetime e)
unfolding lifetime em_egl_context_new create
objects_destroyed e = pick e.display e.initialized (e.num_configs == 0)
  where
    pick :
        (d i n : Bool)
        → AreDestroyed e.surface (
            life_of (
              if d
              then if i then if n then failed else create_objects e.context e.surface else failed
              else failed))
    pick false i n = failed-AreDestroyed e.surface
    pick true false n = failed-AreDestroyed e.surface
    pick true true true = failed-AreDestroyed e.surface
    pick true true false = objects-AreDestroyed e.context e.surface

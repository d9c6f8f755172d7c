-- ===== src/Source/Creation.antt =====
-- server/src/ems/gst/ems_gstreamer_src.c: how the source is created, and what it complains about.
use Prim.Native.String.{String}
use electric_maple.Common.{ℕ, ◌%◌, Bool, Option, none, some, List, [], ◌∷◌, ◌==◌, if◌then◌else◌}
use electric_maple.Common.Int.{ℤ}
use electric_maple.Config.{Size}
use electric_maple.Source.{Source, new_source, XrtFormat, format_str}

pub data Complaint : Type 0 where
  odd_width odd_height : Complaint

unfoldable pub complain_if_wrong_image_size : ℕ → ℕ → List Complaint
complain_if_wrong_image_size width height =
    let tall = if height % 2 == 1 then odd_height ∷ [] else [] in
    if width % 2 == 1 then odd_width ∷ tall else tall

-- The caps "video/x-raw" that appsrc gets; the framerate is the rate over 1.
pub record Caps : Type 0 where
  pub format : String
  pub width : ℤ
  pub height : ℤ
  pub framerate : ℕ

-- The source with its appsrc, which the pipeline may not have, the caps that are set, and whether the meta
-- is registered and the node is in the pipeline's frame context.
pub record CreatedSource : Type 0 where
  pub source : Source
  pub appsrc : Option ℕ
  pub caps : Caps
  pub meta_registered : Bool
  pub in_context : Bool

abbrev pub create_with_format : Option String → Option ℕ → Bool → Size → ℕ → Option CreatedSource
create_with_format none appsrc registers extent refresh_rate_hz = none
create_with_format (some format) appsrc registers extent refresh_rate_hz = some (record {
  source = new_source;
  appsrc = appsrc;
  caps = record {
    format = format;
    width = extent.w;
    height = extent.h;
    framerate = refresh_rate_hz;
  };
  meta_registered = registers;
  in_context = Bool.true;
})

-- What the pipeline's lookup of the appsrc finds, and whether the meta can be registered; `none` is the failed assertion
-- on the format.
unfoldable pub ems_gstreamer_src_create_with_pipeline :
    Option ℕ → Bool → Size → ℕ → XrtFormat → Option CreatedSource
ems_gstreamer_src_create_with_pipeline appsrc registers extent refresh_rate_hz format =
    create_with_format (format_str format) appsrc registers extent refresh_rate_hz

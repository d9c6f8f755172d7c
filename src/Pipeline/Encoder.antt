-- ===== src/Pipeline/Encoder.antt =====
-- server/src/ems/gst/ems_gstreamer_pipeline.c: the encoder that the pipeline is created with.
use Prim.Native.String.{String}
use electric_maple.Common.{
  ℕ, ◌*◌, ◌%◌, ◌^◌, ◌≡◌, refl, Bool, Option, none, some, List, [], ◌∷◌, if◌then◌else◌, All,
}
use electric_maple.Args.{
  EmsEncoderType, x264, nvh264, nvautogpuh264, vulkanh264, openh264, vaapih264, vah264, amc, auto,
  Arguments, Options, arguments_of, encoder_of, encoder_of_name,
}
use electric_maple.Config.{uint32}

-- The element that the encoder's text names, and the bitrate that is printed into it.
pub record Encoder : Type 0 where
  pub element : String
  pub bitrate : ℕ

abbrev pub amc_bitrate : Arguments → ℕ
amc_bitrate args = args.bitrate * 10000 % 2 ^ 32

-- `none` is the abort. `exists` is `check_element_exists`; the build is not for Android.
unfoldable pub encoder_str : (String → Bool) → EmsEncoderType → Arguments → Option Encoder
encoder_str exists x264 args = some (record { element = "x264enc"; bitrate = args.bitrate })
encoder_str exists nvh264 args = some (record { element = "nvh264enc"; bitrate = args.bitrate })
encoder_str exists nvautogpuh264 args =
    some (record { element = "nvautogpuh264enc"; bitrate = args.bitrate })
encoder_str exists vulkanh264 args =
    some (record { element = "vulkanh264enc"; bitrate = args.bitrate })
encoder_str exists openh264 args = some (record { element = "openh264enc"; bitrate = args.bitrate })
encoder_str exists vaapih264 args =
    some (record { element = "vaapih264enc"; bitrate = args.bitrate })
encoder_str exists vah264 args = some (record { element = "vah264enc"; bitrate = args.bitrate })
encoder_str exists amc args =
    if exists "amcvidenc-c2qtiavcencoder"
    then some (record { element = "amcvidenc-c2qtiavcencoder"; bitrate = amc_bitrate args })
    else if exists "amcvidenc-c2mtkavcencoder"
    then some (record { element = "amcvidenc-c2mtkavcencoder"; bitrate = amc_bitrate args })
    else none
encoder_str exists auto args = some (record { element = "encodebin2"; bitrate = args.bitrate })

-- The encoders that the help of the option `--encoder` lists, with the element that each should get.
abbrev pub listed_encoders : List (String × String)
listed_encoders =
    ("x264", "x264enc")
    ∷ ("openh264", "openh264enc")
    ∷ ("vulkanh264", "vulkanh264enc")
    ∷ ("vaapih264", "vaapih264enc")
    ∷ ("vah264", "vah264enc")
    ∷ ("nvh264", "nvh264enc")
    ∷ ("nvautogpuh264", "nvautogpuh264enc")
    ∷ []

-- The encoder of parsed options.
abbrev pub chosen : (String → Bool) → Options → Option Encoder
chosen exists o = encoder_str exists (arguments_of o).encoder_type (arguments_of o)

abbrev pub with_name : Options → String → Options
with_name o name = record o { encoder_name = some name }

-- Whatever the other options are and whatever elements there are, each encoder that the help lists makes
-- the pipeline use its own element, at the option's bitrate modulo 2^32.
pub listed_encoders_used :
    (exists : String → Bool) (o : Options)
    → All
        (λ p.
          chosen exists (with_name o p.0)
          ≡ some (record { element = p.1; bitrate = uint32 o.bitrate }))
        listed_encoders
unfolding encoder_str arguments_of encoder_of encoder_of_name
listed_encoders_used exists o = (refl, (refl, (refl, (refl, (refl, (refl, (refl, tt)))))))

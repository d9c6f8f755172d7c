-- ===== src/Config/File.antt =====
-- server/src/ems/ems_config.c: what a read of the JSON file leaves in the config.
use electric_maple.Common.{ℕ, ◌≡◌, refl, ap, ◌∙◌, Bool, true, false, Option, none, some}
use electric_maple.Common.Int.{ℤ}
use electric_maple.Config.{
  Reader, Size, Fov, DeviceConfig, Reading, reading, failed, and_then, uint32, int32, enter,
  write_int, write_double, read_native, read_stream, on_left, on_right, read_fov, set_refresh_rate,
  set_native_w, set_native_h, set_stream_w, set_stream_h, set_left, set_right, set_up, set_down,
  read_fovs, read_root, ems_config_init_from_json, returned,
}

-- The second of two values that may be missing, with the first.
abbrev pub both {ℓ} : {A : Type ℓ} {B : Type ℓ} → Option A → Option B → Option (A × B)
both none q = none
both (some a) none = none
both (some a) (some b) = some (a, b)

abbrev pub at {ℓ} : {A : Type ℓ} {B : Type ℓ} → Option A → (A → Option B) → Option B
at none f = none
at (some a) f = f a

abbrev pub map_option {ℓ} : {A : Type ℓ} {B : Type ℓ} → (A → B) → Option A → Option B
map_option f none = none
map_option f (some a) = some (f a)

-- What a read returned, if it did not fail.
abbrev result_of : Reading → Option DeviceConfig
result_of (reading c) = some c
result_of (failed c) = none

abbrev write :
    {A : Type 0} → (A → DeviceConfig → DeviceConfig) → Option A → DeviceConfig → Option DeviceConfig
write set none c = none
write set (some a) c = some (set a c)

-- From every config, a read succeeds exactly when the value is there, and then it sets it.
abbrev Reads :
    {A : Type 0} → (DeviceConfig → Reading) → Option A → (A → DeviceConfig → DeviceConfig) → Type 0
Reads f o set = (c : DeviceConfig) → result_of (f c) ≡ write set o c

abbrev set_both :
    {A B : Type 0}
    → (A → DeviceConfig → DeviceConfig)
    → (B → DeviceConfig → DeviceConfig)
    → A × B
    → DeviceConfig
    → DeviceConfig
set_both f g (a, b) c = g b (f a c)

result_of-and_then :
    (x : Reading) (g : DeviceConfig → Reading)
    → result_of (and_then x g) ≡ at (result_of x) (λ c. result_of (g c))
result_of-and_then (reading c) g = refl
result_of-and_then (failed c) g = refl

write-both :
    {A B : Type 0} (o : Option A) (p : Option B) (s : A → DeviceConfig → DeviceConfig)
    (t : B → DeviceConfig → DeviceConfig) (g : DeviceConfig → Reading) (c : DeviceConfig)
    → Reads g p t
    → at (write s o c) (λ d. result_of (g d)) ≡ write (set_both s t) (both o p) c
write-both none p s t g c h = refl
write-both (some a) none s t g c h = h (s a c)
write-both (some a) (some b) s t g c h = h (s a c)

Reads-and_then :
    {A B : Type 0} (f g : DeviceConfig → Reading) (o : Option A) (p : Option B)
    (s : A → DeviceConfig → DeviceConfig) (t : B → DeviceConfig → DeviceConfig)
    → Reads f o s
    → Reads g p t
    → Reads (λ c. and_then (f c) g) (both o p) (set_both s t)
Reads-and_then f g o p s t hf hg c =
    result_of-and_then (f c) g
    ∙ ap (λ x. at x (λ d. result_of (g d))) (hf c)
    ∙ write-both o p s t g c hg

module _ (r : Reader) where
  open r use {Node, member, element, int_value, double_value}

  Reads-enter :
      {A : Type 0} (o : Option Node) (f : Node → DeviceConfig → Reading) (v : Node → Option A)
      (set : A → DeviceConfig → DeviceConfig)
      → ((n : Node) → Reads (f n) (v n) set)
      → Reads (enter r o f) (at o v) set
  Reads-enter none f v set h c = refl
  Reads-enter (some n) f v set h c = h n c

  -- The values at a path of members.
  abbrev pub int_at : Option Node → Option ℤ
  int_at o = map_option int_value o

  abbrev pub double_at : Option Node → Option ℕ
  double_at o = map_option double_value o

  Reads-int :
      (o : Option Node) (set : ℤ → DeviceConfig → DeviceConfig)
      → Reads (enter r o (write_int r set)) (int_at o) set
  Reads-int none set c = refl
  Reads-int (some n) set c = refl

  Reads-double :
      (o : Option Node) (set : ℕ → DeviceConfig → DeviceConfig)
      → Reads (enter r o (write_double r set)) (double_at o) set
  Reads-double none set c = refl
  Reads-double (some n) set c = refl

  unfoldable pub size_values : Node → Option (ℤ × ℤ)
  size_values n = both (int_at (member n "width")) (int_at (member n "height"))

  unfoldable pub fov_values : Node → Option (ℕ × (ℕ × (ℕ × ℕ)))
  fov_values n = both (double_at (member n "angle_left")) (
      both (double_at (member n "angle_right"))
        (both (double_at (member n "angle_up")) (double_at (member n "angle_down"))))

  -- All the values that the file must have.
  unfoldable pub file_values :
      Node → Option (ℤ × ((ℤ × ℤ) × ((ℤ × ℤ) × ((ℕ × (ℕ × (ℕ × ℕ))) × (ℕ × (ℕ × (ℕ × ℕ)))))))
  file_values root = both (int_at (member root "refresh_rate_hz")) (
      both (at (member root "resolution_native_per_eye_pixels") size_values) (
        both (at (member root "resolution_stream_stereo_pixels") size_values) (
          at (member root "fov_radians")
            (λ n. both (at (element n 0) fov_values) (at (element n 1) fov_values)))))

abbrev pub size_of : ℤ × ℤ → Size
size_of (w, h) = record { w = int32 w; h = int32 h }

abbrev pub fov_of : ℕ × (ℕ × (ℕ × ℕ)) → Fov
fov_of (l, (r, (u, d))) = record { angle_left = l; angle_right = r; angle_up = u; angle_down = d }

-- The config of a file's values.
unfoldable pub config_of :
    ℤ × ((ℤ × ℤ) × ((ℤ × ℤ) × ((ℕ × (ℕ × (ℕ × ℕ))) × (ℕ × (ℕ × (ℕ × ℕ)))))) → DeviceConfig
config_of (rate, (native, (stream, (left, right)))) = record {
  refresh_rate_hz = uint32 rate;
  resolution_native_per_eye_pixels = size_of native;
  resolution_stream_stereo_pixels = size_of stream;
  fov_left = fov_of left;
  fov_right = fov_of right;
}

module _ (r : Reader) where
  open r use {Node, member, element}

  read_native-Reads :
      (n : Node) → Reads (read_native r n) (size_values r n) (set_both set_native_w set_native_h)
  unfolding read_native size_values
  read_native-Reads n =
      Reads-and_then _ _ _ _ set_native_w set_native_h (Reads-int r (member n "width") set_native_w)
        (Reads-int r (member n "height") set_native_h)

  read_stream-Reads :
      (n : Node) → Reads (read_stream r n) (size_values r n) (set_both set_stream_w set_stream_h)
  unfolding read_stream size_values
  read_stream-Reads n =
      Reads-and_then _ _ _ _ set_stream_w set_stream_h (Reads-int r (member n "width") set_stream_w)
        (Reads-int r (member n "height") set_stream_h)

  abbrev set_fov :
      ((Fov → Fov) → DeviceConfig → DeviceConfig) → ℕ × (ℕ × (ℕ × ℕ)) → DeviceConfig → DeviceConfig
  set_fov on = set_both (set_left on) (set_both (set_right on) (set_both (set_up on) (set_down on)))

  read_fov-Reads :
      (on : (Fov → Fov) → DeviceConfig → DeviceConfig) (n : Node)
      → Reads (read_fov r on n) (fov_values r n) (set_fov on)
  unfolding read_fov fov_values
  read_fov-Reads on n =
      Reads-and_then _ _ _ _ (set_left on) _ (Reads-double r (member n "angle_left") (set_left on))
        (Reads-and_then _ _ _ _ (set_right on) _
          (Reads-double r (member n "angle_right") (set_right on))
          (Reads-and_then _ _ _ _ (set_up on) (set_down on)
            (Reads-double r (member n "angle_up") (set_up on))
            (Reads-double r (member n "angle_down") (set_down on))))

  abbrev set_fovs : (ℕ × (ℕ × (ℕ × ℕ))) × (ℕ × (ℕ × (ℕ × ℕ))) → DeviceConfig → DeviceConfig
  set_fovs = set_both (set_fov on_left) (set_fov on_right)

  read_fovs-Reads :
      (n : Node)
      → Reads
          (read_fovs r n)
          (both (at (element n 0) (fov_values r)) (at (element n 1) (fov_values r)))
          set_fovs
  unfolding read_fovs
  read_fovs-Reads n =
      Reads-and_then _ _ _ _ (set_fov on_left) (set_fov on_right)
        (Reads-enter r (element n 0) (read_fov r on_left) (fov_values r) (set_fov on_left)
          (read_fov-Reads on_left))
        (Reads-enter r (element n 1) (read_fov r on_right) (fov_values r) (set_fov on_right)
          (read_fov-Reads on_right))

  abbrev set_native : ℤ × ℤ → DeviceConfig → DeviceConfig
  set_native = set_both set_native_w set_native_h

  abbrev set_stream : ℤ × ℤ → DeviceConfig → DeviceConfig
  set_stream = set_both set_stream_w set_stream_h

  read_root-Reads :
      (root : Node)
      → Reads
          (read_root r root)
          (file_values r root)
          (set_both set_refresh_rate (set_both set_native (set_both set_stream set_fovs)))
  unfolding read_root file_values
  read_root-Reads root =
      Reads-and_then _ _ _ _ set_refresh_rate _
        (Reads-int r (member root "refresh_rate_hz") set_refresh_rate)
        (Reads-and_then _ _ _ _ set_native _
          (Reads-enter r (member root "resolution_native_per_eye_pixels") (read_native r)
            (size_values r) set_native read_native-Reads)
          (Reads-and_then _ _ _ _ set_stream set_fovs
            (Reads-enter r (member root "resolution_stream_stereo_pixels") (read_stream r)
              (size_values r) set_stream read_stream-Reads)
            (Reads-enter r (member root "fov_radians") (read_fovs r) _ set_fovs read_fovs-Reads)))

-- The config that a call returned true with.
abbrev pub success : Bool × DeviceConfig → Option DeviceConfig
success (true, c) = some c
success (false, c) = none

success-returned : (x : Reading) → success (returned x) ≡ result_of x
success-returned (reading c) = refl
success-returned (failed c) = refl

all_written :
    {A : Type 0} (o : Option A) (f : A → DeviceConfig → DeviceConfig) (g : A → DeviceConfig)
    (c : DeviceConfig)
    → ((a : A) → f a c ≡ g a)
    → write f o c ≡ map_option g o
all_written none f g c h = refl
all_written (some a) f g c h = ap some (h a)

-- Reading the JSON file returns true exactly when the file can be parsed and has every value, and then the
-- config is that of the file's values, whatever it was before.
pub config_from_file :
    (r : Reader) (root : Option r.Node) (c : DeviceConfig)
    → success (ems_config_init_from_json r root c) ≡ map_option config_of (at root (file_values r))
unfolding ems_config_init_from_json config_of
config_from_file r none c = refl
config_from_file r (some root) c =
    success-returned (read_root r root c)
    ∙ read_root-Reads r root c
    ∙ all_written (file_values r root) _ config_of c (λ v. refl)

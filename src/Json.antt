-- ===== src/Json.antt =====
-- JSON-GLib as the program uses it: the builder, the printer, the parser and the member accessors, with
-- what its documentation says of them. A node may be missing (NULL), and then its accessors return 0 or NULL.
pub mod Sample
use Prim.Native.String.{String}
use text.Mathlib.Text.{◌==◌ as str_eq}
use electric_maple.Common.{ℕ, ◌≡◌, Bool, Option, none, some, List, [], ◌∷◌, if◌then◌else◌, is_some}

-- The member that a list of members has under a name: the first one.
abbrev pub find {ℓ} : {A : Type ℓ} → String → List (String × A) → Option A
find k [] = none
find k ((j, a) ∷ ms) = if str_eq j k then some a else find k ms

pub record JsonGlib : Type 1 where
  pub Node : Type 0
  pub Text : Type 0
  -- `json_builder_begin_object` … `json_builder_end_object`
  pub object : List (String × Node) → Node
  pub string : String → Node
  pub int : ℕ → Node
  -- `json_to_string`, and `json_parser_load_from_data` with `json_parser_get_root`
  pub print : Node → Text
  pub parse : Text → Option Node
  -- `json_object_has_member`, `json_object_get_string_member`, …
  pub has_member : Option Node → String → Bool
  pub string_member : Option Node → String → Option String
  pub int_member : Option Node → String → ℕ
  pub object_member : Option Node → String → Option Node
  pub parse-print : (ms : List (String × Node)) → parse (print (object ms)) ≡ some (object ms)
  pub has_member-object :
      (ms : List (String × Node)) (k : String)
      → has_member (some (object ms)) k ≡ is_some (find k ms)
  pub string_member-object :
      (ms : List (String × Node)) (k s : String)
      → find k ms ≡ some (string s)
      → string_member (some (object ms)) k ≡ some s
  pub int_member-object :
      (ms : List (String × Node)) (k : String) (n : ℕ)
      → find k ms ≡ some (int n)
      → int_member (some (object ms)) k ≡ n
  pub object_member-object :
      (ms ns : List (String × Node)) (k : String)
      → find k ms ≡ some (object ns)
      → object_member (some (object ms)) k ≡ some (object ns)

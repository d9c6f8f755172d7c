-- ===== src/Json/Sample.antt =====
-- A JSON document type that meets the documented behaviour: texts are documents, printed as themselves.
use Prim.Native.String.{String}
use text.Mathlib.Text.{◌==◌ as str_eq}
use electric_maple.Common.{
  ℕ, ◌≡◌, refl, ap, Option, none, some, List, [], ◌∷◌, if◌then◌else◌, is_some,
}
use electric_maple.Json.{JsonGlib, find}

mutual
  pub data Json : Type 0 where
    str : String → Json
    num : ℕ → Json
    obj : Members → Json

  pub data Members : Type 0 where
    nil : Members
    cons : String → Json → Members → Members

abbrev pub members : List (String × Json) → Members
members [] = nil
members ((k, v) ∷ ms) = cons k v (members ms)

abbrev pub look : String → Members → Option Json
look k nil = none
look k (cons j v ms) = if str_eq j k then some v else look k ms

look-members : (k : String) (ms : List (String × Json)) → look k (members ms) ≡ find k ms
look-members k [] = refl
look-members k ((j, v) ∷ ms) = ap (λ r. if str_eq j k then some v else r) (look-members k ms)

abbrev pub member : Option Json → String → Option Json
member (some (obj ms)) k = look k ms
member _ k = none

abbrev pub as_string : Option Json → Option String
as_string (some (str s)) = some s
as_string _ = none

abbrev pub as_int : Option Json → ℕ
as_int (some (num n)) = n
as_int _ = 0

abbrev pub as_object : Option Json → Option Json
as_object (some (obj ms)) = some (obj ms)
as_object _ = none

pub has_member-law :
    (ms : List (String × Json)) (k : String) → is_some (look k (members ms)) ≡ is_some (find k ms)
has_member-law ms k = ap is_some (look-members k ms)

pub string_member-law :
    (ms : List (String × Json)) (k s : String)
    → find k ms ≡ some (str s)
    → as_string (look k (members ms)) ≡ some s
string_member-law ms k s e = rw (look-members k ms, e)

pub int_member-law :
    (ms : List (String × Json)) (k : String) (n : ℕ)
    → find k ms ≡ some (num n)
    → as_int (look k (members ms)) ≡ n
int_member-law ms k n e = rw (look-members k ms, e)

pub object_member-law :
    (ms ns : List (String × Json)) (k : String)
    → find k ms ≡ some (obj (members ns))
    → as_object (look k (members ms)) ≡ some (obj (members ns))
object_member-law ms ns k e = rw (look-members k ms, e)

abbrev pub sample_json : JsonGlib
sample_json = record {
  Node = Json;
  Text = Json;
  object = λ ms. obj (members ms);
  string = str;
  int = num;
  print = λ n. n;
  parse = λ t. some t;
  has_member = λ n k. is_some (member n k);
  string_member = λ n k. as_string (member n k);
  int_member = λ n k. as_int (member n k);
  object_member = λ n k. as_object (member n k);
  parse-print = λ ms. refl;
  has_member-object = has_member-law;
  string_member-object = string_member-law;
  int_member-object = int_member-law;
  object_member-object = object_member-law;
}

-- ===== src/Api/Json.antt =====
-- What the program uses of encoding/json, on JSON values: how a value fills the fields of a struct,
-- and the objects that structs are written as. `malformed` is a text that is no JSON.
use Prim.Native.Char.{code}
use sockchat.Prelude.{
  ℕ, ◌+◌, ◌^◌, String, Bool, true, false, ◌&&◌, Option, none, some, leb, ltb, nat_eq, if◌then◌else◌,
}
use sockchat.Api.Structs.{ℤ, pos, negsuc}

mutual
  pub data Json : Type 0 where
    malformed null : Json
    bool : Bool → Json
    int : ℤ → Json
    fraction : String → Json
    str : String → Json
    arr : Items → Json
    obj : Fields → Json

  pub data Items : Type 0 where
    nil : Items
    cons : Json → Items → Items

  pub data Fields : Type 0 where
    end : Fields
    field : String → Json → Fields → Fields

-- Case folding to an ASCII letter: also the Kelvin sign and the long s.
abbrev fold : ℕ → ℕ
fold c =
    if leb b'A' c && leb c b'Z'
    then c + 32
    else if nat_eq c 0x212a
    then b'k'
    else if nat_eq c 0x17f
    then b's'
    else c

-- `strings.EqualFold` where one side is ASCII, as the decoder matches the names of fields.
unfoldable pub equal_fold : String → String → Bool
equal_fold String.[] String.[] = true
equal_fold String.[] (String.◌∷◌ d t) = false
equal_fold (String.◌∷◌ c s) String.[] = false
equal_fold (String.◌∷◌ c s) (String.◌∷◌ d t) =
    nat_eq (fold (code c)) (fold (code d)) && equal_fold s t

-- The value of a struct's field after decoding, and whether no value was of a wrong type.
abbrev pub Slot : Type 0 → Type 0
Slot A = A × Bool

-- A later entry of the same name wins, `null` leaves the field alone, and a value of another type is
-- an error that the decoder reports at its end.
abbrev put_string : Json → Slot String → Slot String
put_string (str s) (old, fine) = (s, fine)
put_string null (old, fine) = (old, fine)
put_string _ (old, fine) = (old, false)

-- The values of an `int64`.
abbrev fits_int64 : ℤ → Bool
fits_int64 (pos n) = ltb n (2 ^ 63)
fits_int64 (negsuc n) = ltb n (2 ^ 63)

abbrev put_int64 : Json → Slot ℤ → Slot ℤ
put_int64 (int n) (old, fine) = if fits_int64 n then (n, fine) else (old, false)
put_int64 null (old, fine) = (old, fine)
put_int64 _ (old, fine) = (old, false)

unfoldable pub string_field : String → Fields → Slot String → Slot String
unfolding equal_fold
string_field name end slot = slot
string_field name (field key value rest) slot =
    string_field name rest (if equal_fold key name then put_string value slot else slot)

unfoldable pub int64_field : String → Fields → Slot ℤ → Slot ℤ
unfolding equal_fold
int64_field name end slot = slot
int64_field name (field key value rest) slot =
    int64_field name rest (if equal_fold key name then put_int64 value slot else slot)

-- A fresh struct has zero values in its fields.
abbrev pub empty_string : Slot String
empty_string = ("", true)

abbrev pub zero_int64 : Slot ℤ
zero_int64 = (pos 0, true)

-- The fields that `json.Unmarshal` reads into a struct: none for `null`, and no value but an object
-- is accepted otherwise.
unfoldable pub object_fields : Json → Option Fields
object_fields null = some end
object_fields (obj fields) = some fields
object_fields _ = none

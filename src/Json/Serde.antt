-- ===== src/Json/Serde.antt =====
-- What the program calls of the serde_json crate, with the documented behaviour it relies on.
use libviprs_bench.Base.{
  Bool, List, String, none, some, ◌≡◌, Result, ok, if◌then◌else◌, str_eq, ◌&◌,
}
use libviprs_bench.Json.{Value, array, items, Map, lookup, IsUnique, IsUniqueValue}

pub record Serde : Type 0 where
  -- `Map::insert` and `Map::remove`: the value at each key afterwards, and keys stay unique
  pub insert : String → Value → Map → Map
  pub remove : String → Map → Map
  pub lookup-insert :
      (k j : String) (v : Value) (m : Map)
      → lookup j (insert k v m) ≡ (if str_eq k j then some v else lookup j m)
  pub lookup-remove :
      (k j : String) (m : Map)
      → IsUnique m
      → lookup j (remove k m) ≡ (if str_eq k j then none else lookup j m)
  pub insert-IsUnique : (k : String) (v : Value) (m : Map) → IsUnique m → IsUnique (insert k v m)
  pub remove-IsUnique : (k : String) (m : Map) → IsUnique m → IsUnique (remove k m)
  -- `Value`'s `PartialEq` and `Display`
  pub value_eq : Value → Value → Bool
  pub to_string : Value → String
  -- `from_str` and `to_string_pretty`, an error as its message
  pub from_str : String → Result String Value
  pub to_string_pretty : Value → Result String String
  -- `from_str` at `Vec<Value>`
  pub vec_from_str : String → Result String (List Value)
  pub vec_from_str-items :
      (s : String) (vs : List Value) → from_str s ≡ ok (array (items vs)) → vec_from_str s ≡ ok vs
  -- an object that was read has unique keys
  pub from_str-IsUnique : (s : String) (v : Value) → from_str s ≡ ok v → IsUniqueValue v
  -- what was printed, with the final line break, reads back as the same value (`float_roundtrip`)
  pub from_str-to_string_pretty :
      (v : Value) (s : String)
      → IsUniqueValue v
      → to_string_pretty v ≡ ok s
      → from_str (s & "\n") ≡ ok v

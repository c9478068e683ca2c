-- ===== src/Json.antt =====
-- The JSON values that the storage documents are read as: `serde_json::Value` with its public
-- variants, its `get`, and the laws of lookups. `Map` keeps insertion order (`preserve_order`).
-- What else the program calls of serde_json is the interface of Json/Serde.
pub mod Serde
pub mod Keys
use libviprs_bench.Base.{
  ℕ, ◌+◌, Bool, true, false, String, List, [], ◌∷◌, Option, none, some, ◌≡◌, refl, arith, str_eq,
  str_eq_iff, if◌then◌else◌, Result, ok, err,
}

-- `Number`: an unsigned integer, `-(n + 1)`, or the 64 bits of a float.
pub data Number : Type 0 where
  unsigned : ℕ → Number
  negative : ℕ → Number
  float : ℕ → Number

mutual
  pub data Value : Type 0 where
    null : Value
    bool : Bool → Value
    number : Number → Value
    string : String → Value
    array : Items → Value
    object : Map → Value

  pub data Items : Type 0 where
    nil : Items
    cons : Value → Items → Items

  -- An object's entries, in the order of their insertion.
  pub data Map : Type 0 where
    empty : Map
    entry : String → Value → Map → Map

abbrev pub elements : Items → List Value
elements nil = []
elements (cons v vs) = v ∷ elements vs

abbrev pub items : List Value → Items
items [] = nil
items (v ∷ vs) = cons v (items vs)

abbrev pub keys : Map → List String
keys empty = []
keys (entry k v m) = k ∷ keys m

-- `Map::get`
unfoldable pub lookup : String → Map → Option Value
lookup k empty = none
lookup k (entry j v m) = if str_eq j k then some v else lookup k m

-- `Value::get` at a key
abbrev pub get : Value → String → Option Value
get (object m) k = lookup k m
get _ k = none

abbrev pub as_str : Value → Option String
as_str (string s) = some s
as_str _ = none

abbrev pub as_bool : Value → Option Bool
as_bool (bool b) = some b
as_bool _ = none

abbrev pub as_u64 : Value → Option ℕ
as_u64 (number (unsigned n)) = some n
as_u64 _ = none

abbrev pub is_null : Value → Bool
is_null null = true
is_null _ = false

infixl 5 ◌>>?◌
-- `Option::and_then`
abbrev pub ◌>>?◌ : {A B : Type 0} → Option A → (A → Option B) → Option B
none >>? f = none
some a >>? f = f a

abbrev pub has_key : String → Map → Bool
has_key k empty = false
has_key k (entry j v m) = if str_eq j k then true else has_key k m

-- Each key stands once, as in a real `Map`.
abbrev pub IsUnique : Map → Type 0
IsUnique empty = Unit
IsUnique (entry k v m) = (has_key k m ≡ false) × IsUnique m

abbrev pub IsUniqueValue : Value → Type 0
IsUniqueValue (object m) = IsUnique m
IsUniqueValue _ = Unit

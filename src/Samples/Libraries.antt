-- ===== src/Samples/Libraries.antt =====
-- `insert` and `remove` of the sample serde_json, with their laws.
use libviprs_bench.Base.{
  false, String, none, some, ◌≡◌, refl, arith, str_eq, str_eq_iff, if◌then◌else◌,
}
use libviprs_bench.Json.{Value, Map, empty, entry, lookup, has_key, IsUnique}

abbrev pub insert : String → Value → Map → Map
insert k v empty = entry k v empty
insert k v (entry j w m) = if str_eq j k then entry j v m else entry j w (insert k v m)

abbrev pub remove : String → Map → Map
remove k empty = empty
remove k (entry j w m) = if str_eq j k then m else entry j w (remove k m)

pub lookup-insert :
    (k j : String) (v : Value) (m : Map)
    → lookup j (insert k v m) ≡ (if str_eq k j then some v else lookup j m)
unfolding lookup
lookup-insert k j v empty = refl
lookup-insert k j v (entry i w m) =
    ground (arith, lookup-insert k j v m, str_eq_iff i k, str_eq_iff k j, str_eq_iff i j)

has_key-insert :
    (k j : String) (v : Value) (m : Map)
    → has_key j m ≡ false
    → str_eq k j ≡ false
    → has_key j (insert k v m) ≡ false
has_key-insert k j v empty h e = rw e refl
has_key-insert k j v (entry i w m) h e =
    ground (arith, has_key-insert k j v m, str_eq_iff i k, str_eq_iff k j)

pub insert-IsUnique : (k : String) (v : Value) (m : Map) → IsUnique m → IsUnique (insert k v m)
insert-IsUnique k v empty u = (refl, tt)
insert-IsUnique k v (entry i w m) (fresh, u) =
    ground
      (arith, insert-IsUnique k v m u, has_key-insert k i v m fresh, str_eq_iff i k, str_eq_iff k i)

absent-lookup : (j : String) (m : Map) → has_key j m ≡ false → lookup j m ≡ none
unfolding lookup
absent-lookup j empty h = refl
absent-lookup j (entry i w m) h = ground (arith, absent-lookup j m)

pub lookup-remove :
    (k j : String) (m : Map)
    → IsUnique m
    → lookup j (remove k m) ≡ (if str_eq k j then none else lookup j m)
unfolding lookup
lookup-remove k j empty u = ground arith
lookup-remove k j (entry i w m) (fresh, u) = ground (
  arith,
  lookup-remove k j m u,
  absent-lookup i m fresh,
  str_eq_iff i k,
  str_eq_iff k j,
  str_eq_iff i j,
)

has_key-remove : (k j : String) (m : Map) → has_key j m ≡ false → has_key j (remove k m) ≡ false
has_key-remove k j empty h = refl
has_key-remove k j (entry i w m) h = ground (arith, has_key-remove k j m)

pub remove-IsUnique : (k : String) (m : Map) → IsUnique m → IsUnique (remove k m)
remove-IsUnique k empty u = tt
remove-IsUnique k (entry i w m) (fresh, u) =
    ground (arith, remove-IsUnique k m u, has_key-remove k i m fresh)

-- ===== src/Versions.antt =====
-- src/version_id.rs: the keys of the versions in a history, and their order.
pub mod Keys
use Prim.Native.Char.{code}
use libviprs_bench.Base.{
  ℕ, String, Bool, true, false, not, ◌&&◌, ◌||◌, List, [], ◌∷◌, map, Option, none, some, ◌≡◌, refl,
  ◌&◌, str_eq, str_ltb, if◌then◌else◌, ltb, ◌==◌, parse_uint, split_on, sort, any,
}
use libviprs_bench.Json.{◌>>?◌}
use libviprs_bench.History.{BenchmarkSnapshot}

unfoldable pub version_key : String → String → String
version_key version git_sha =
    if str_eq git_sha "" || str_eq git_sha "unknown" then version else version & "@" & git_sha

abbrev u64_max : ℕ
u64_max = 18446744073709551615

pub record SortKey : Type 0 where
  pub major : ℕ
  pub minor : ℕ
  pub patch : ℕ

-- `trim_start_matches('v')`
without_v : String → String
without_v String.[] = ""
without_v (String.◌∷◌ c s) =
    let rest = without_v s in if code c == b'v' then rest else String.◌∷◌ c s

-- The first piece of `split(['-', '+'])`
core_of : String → String
core_of String.[] = ""
core_of (String.◌∷◌ c s) =
    let rest = core_of s in if code c == b'-' || code c == b'+' then "" else String.◌∷◌ c rest

sort_key_of : List String → Option SortKey
unfolding parse_uint
sort_key_of (a ∷ b ∷ c ∷ rest) = parse_uint u64_max a >>? λ major. parse_uint u64_max b >>? λ minor.
    parse_uint u64_max c >>? λ patch. some (record { major = major; minor = minor; patch = patch })
sort_key_of _ = none

or_last : Option SortKey → SortKey
or_last none = record { major = u64_max; minor = u64_max; patch = u64_max }
or_last (some key) = key

unfoldable pub semver_sort_key : String → SortKey
unfolding or_last sort_key_of core_of without_v split_on
semver_sort_key version = or_last (sort_key_of (split_on b'.' (core_of (without_v version))))

semver_test :
    (semver_sort_key "v1.2.3-rc1" ≡ record { major = 1; minor = 2; patch = 3 })
    × ((semver_sort_key "dev").major ≡ u64_max)
unfolding semver_sort_key split_on parse_uint
semver_test = (refl, refl)

pub record Item : Type 0 where
  pub key : String
  pub semver : SortKey
  pub timestamp : String

item_of : {R P : Type 0} → BenchmarkSnapshot R P → Item
unfolding version_key semver_sort_key
item_of s = record {
  key = version_key s.version s.git_sha;
  semver = semver_sort_key s.version;
  timestamp = s.timestamp;
}

semver_ltb : SortKey → SortKey → Bool
semver_ltb a b =
    if ltb a.major b.major
    then true
    else if ltb b.major a.major
    then false
    else if ltb a.minor b.minor
    then true
    else if ltb b.minor a.minor
    then false
    else ltb a.patch b.patch

-- The order by version, then timestamp, then key.
item_leb : Item → Item → Bool
unfolding semver_ltb
item_leb a b =
    if semver_ltb a.semver b.semver
    then true
    else if semver_ltb b.semver a.semver
    then false
    else if str_ltb a.timestamp b.timestamp
    then true
    else if str_ltb b.timestamp a.timestamp
    then false
    else not (str_ltb b.key a.key)

-- `seen.insert(key)` keeps the first of each.
keep_first : List String → List Item → List String
keep_first seen [] = []
keep_first seen (item ∷ items) =
    let old = keep_first seen items in
    let fresh = item.key ∷ keep_first (item.key ∷ seen) items in
    if any (λ k. str_eq k item.key) seen then old else fresh

unfoldable pub ordered_version_keys : {R P : Type 0} → List (BenchmarkSnapshot R P) → List String
unfolding keep_first item_leb item_of sort
ordered_version_keys history = keep_first [] (sort item_leb (map item_of history))

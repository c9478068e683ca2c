-- ===== src/Pin.antt =====
-- src/pin_check.rs: the pinned libvips release against the releases that upstream has. The derived
-- reading of the releases is a parameter. `strip_libvips_prefixes` and the shorter version are of
-- src/provenance.rs.
pub mod Kinds
use libviprs_bench.Base.{
  ℕ, String, Bool, true, false, not, ◌&&◌, ◌||◌, List, [], ◌∷◌, ◌++◌, map, Option, none, some, ◌≡◌,
  refl, ◌&◌, show, trim, split_on, strip_prefix, parse_uint, if◌then◌else◌, ltb, ◌==◌, str_eq,
  same_chars, lowered, Result, ok, err, map_err, ◌>>=◌,
}
use libviprs_bench.Json.{◌>>?◌}

abbrev pub max_u32 : ℕ
max_u32 = 4294967295

unfoldable pub strip_libvips_prefixes : String → String
unfolding trim strip_prefix
strip_libvips_prefixes version = strip_prefix "v" (strip_prefix "vips-" (trim version))

pub record Version : Type 0 where
  pub major : ℕ
  pub minor : ℕ
  pub patch : ℕ

version_of : List String → Option Version
unfolding parse_uint
version_of (a ∷ b ∷ c ∷ rest) = parse_uint max_u32 a >>? λ major. parse_uint max_u32 b >>? λ minor.
    parse_uint max_u32 c >>? λ patch. some (record { major = major; minor = minor; patch = patch })
version_of _ = none

unfoldable pub parse_libvips_version : String → Option Version
unfolding version_of strip_libvips_prefixes split_on
parse_libvips_version tag = version_of (split_on b'.' (strip_libvips_prefixes tag))

pair_of : List String → Option (ℕ × ℕ)
unfolding parse_uint
pair_of (a ∷ b ∷ rest) =
    parse_uint max_u32 a >>? λ major. parse_uint max_u32 b >>? λ minor. some (major, minor)
pair_of _ = none

unfoldable pub parse_libvips_major_minor : String → Option (ℕ × ℕ)
unfolding pair_of strip_libvips_prefixes split_on
parse_libvips_major_minor version = pair_of (split_on b'.' (strip_libvips_prefixes version))

parse_test :
    (parse_libvips_version " vips-8.18.4" ≡ some (record { major = 8; minor = 18; patch = 4 }))
    × (parse_libvips_version "v8.18.0-rc1" ≡ none)
    × (parse_libvips_major_minor "8.18" ≡ some (8, 18))
unfolding parse_libvips_version parse_libvips_major_minor trim split_on strip_prefix parse_uint
parse_test = (refl, refl, refl)

pub data LibvipsPinStatus : Type 0 where
  up_to_date : LibvipsPinStatus
  newer_release_available : String → LibvipsPinStatus
  sha256_mismatch : String → String → LibvipsPinStatus
  pinned_release_not_found : LibvipsPinStatus

pub data LibvipsPinError : Type 0 where
  unparsed : String → LibvipsPinError
  no_stable_release : LibvipsPinError

unfoldable pub show_pin_error : LibvipsPinError → String
show_pin_error (unparsed e) = "could not parse the releases payload: " & e
show_pin_error no_stable_release = "the releases payload carried no stable release"

pub record GhAsset : Type 0 where
  pub name : String
  pub digest : Option String

pub record GhRelease : Type 0 where
  pub tag_name : String
  pub draft : Bool
  pub prerelease : Bool
  pub assets : List GhAsset

unfoldable pub strip_sha256_prefix : String → String
unfolding strip_prefix
strip_sha256_prefix digest = strip_prefix "sha256:" digest

-- The order of the triples.
unfoldable pub version_ltb : Version → Version → Bool
version_ltb a b =
    if ltb a.major b.major
    then true
    else if ltb b.major a.major
    then false
    else if ltb a.minor b.minor
    then true
    else if ltb b.minor a.minor
    then false
    else ltb a.patch b.patch

unfoldable pub is_stable : GhRelease → Bool
is_stable r = not r.draft && not r.prerelease

-- `filter` of the stable releases, `filter_map` to their versions
unfoldable pub stable_versions : List GhRelease → List Version
unfolding is_stable parse_libvips_version
stable_versions [] = []
stable_versions (r ∷ releases) =
    let rest = stable_versions releases in
    if is_stable r
    then elim (parse_libvips_version r.tag_name) [ none ↦ rest | some v ↦ v ∷ rest ]
    else rest

-- `max`, of which a later one of equal ones stays
greatest : Version → List Version → Version
unfolding version_ltb
greatest best [] = best
greatest best (v ∷ versions) = greatest (if version_ltb v best then best else v) versions

latest : List Version → Result LibvipsPinError Version
unfolding greatest
latest [] = err no_stable_release
latest (v ∷ versions) = ok (greatest v versions)

same_version : Version → Option Version → Bool
same_version a none = false
same_version a (some b) = a.major == b.major && a.minor == b.minor && a.patch == b.patch

-- The assets of the stable releases of a version.
assets_of : Version → List GhRelease → List GhAsset
unfolding is_stable parse_libvips_version same_version
assets_of pinned [] = []
assets_of pinned (r ∷ releases) =
    let rest = assets_of pinned releases in
    if is_stable r && same_version pinned (parse_libvips_version r.tag_name)
    then r.assets ++ rest
    else rest

find_asset : String → List GhAsset → Option GhAsset
find_asset name [] = none
find_asset name (a ∷ assets) =
    let rest = find_asset name assets in if str_eq a.name name then some a else rest

version_text : Version → String
version_text v = show v.major & "." & show v.minor & "." & show v.patch

unfoldable pub upstream_digest : List GhRelease → Version → Option String
unfolding assets_of find_asset version_text strip_sha256_prefix
upstream_digest releases pinned =
    find_asset ("vips-" & version_text pinned & ".tar.xz") (assets_of pinned releases) >>? λ a.
    a.digest >>? λ digest. some (strip_sha256_prefix digest)

-- `!u.eq_ignore_ascii_case(pinned_sha256)`
unfoldable pub differs : String → String → Bool
differs upstream pinned = not (same_chars (lowered upstream) (lowered pinned))

is_newer : Version → Option Version → Bool
unfolding version_ltb
is_newer latest none = false
is_newer latest (some pinned) = version_ltb pinned latest

-- The last two cases, after the digest was compared.
settle : Bool → Version → Option Version → LibvipsPinStatus
unfolding is_newer version_text
settle found latest pinned =
    if is_newer latest pinned
    then newer_release_available (version_text latest)
    else if not found
    then pinned_release_not_found
    else up_to_date

status_of : Version → Option Version → String → Option String → LibvipsPinStatus
unfolding settle differs
status_of latest pinned pinned_sha256 none = settle false latest pinned
status_of latest pinned pinned_sha256 (some upstream) =
    if differs upstream pinned_sha256
    then sha256_mismatch pinned_sha256 upstream
    else settle true latest pinned

unfoldable pub classify_releases :
    List GhRelease → String → String → Result LibvipsPinError LibvipsPinStatus
unfolding latest stable_versions status_of upstream_digest parse_libvips_version
classify_releases releases pinned_version pinned_sha256 = do
  newest ← latest (stable_versions releases)
  let pinned = parse_libvips_version pinned_version
  ok (status_of newest pinned pinned_sha256 (pinned >>? upstream_digest releases))

-- `from_str` is `serde_json::from_str` at the releases.
unfoldable pub classify_libvips_pin :
    (String → Result String (List GhRelease))
    → String
    → String
    → String
    → Result LibvipsPinError LibvipsPinStatus
unfolding classify_releases
classify_libvips_pin from_str releases_json pinned_version pinned_sha256 = do
  releases ← map_err unparsed (from_str releases_json)
  classify_releases releases pinned_version pinned_sha256

-- ===== src/Emulation.antt =====
-- src/emulation.rs: the probe that decides whether the process runs under instruction translation.
-- What the process reads of its surroundings is a value of `Surroundings`: the architecture it was
-- compiled for, /proc/self/maps, the binfmt_misc directory and its files, BENCH_DAEMON_ARCH and the
-- output of `uname -m`.
pub mod Probe
pub mod Report
use libviprs_bench.Base.{
  ℕ, zero, suc, ◌/◌, ◌%◌, String, Bool, true, false, not, ◌&&◌, ◌||◌, List, [], ◌∷◌, Option, none,
  some, ◌≡◌, refl, str_eq, ◌&◌, codes, trim, trim_start, is_whitespace, split_on, same_chars,
  begins, lowered, any, if◌then◌else◌, ltb, ◌==◌,
}
use Prim.Native.Char.{code}
use libviprs_bench.Json.{◌>>?◌}

pub data Emulated : Type 0 where
  yes : Emulated
  no : Emulated
  unknown : Emulated

unfoldable pub as_json : Emulated → String
as_json yes = "true"
as_json no = "false"
as_json unknown = "\"unknown\""

pub data EvidenceVerdict : Type 0 where
  emulated : EvidenceVerdict
  native : EvidenceVerdict
  inconclusive : EvidenceVerdict

unfoldable pub as_str : EvidenceVerdict → String
as_str emulated = "emulated"
as_str native = "native"
as_str inconclusive = "inconclusive"

pub record Evidence : Type 0 where
  pub source : String
  pub verdict : EvidenceVerdict
  pub detail : String

pub record EmulationReport : Type 0 where
  pub emulated : Emulated
  pub evidence : List Evidence
  pub binary_arch : String
  pub uname_arch : Option String
  pub daemon_arch : Option String

known_arch : String → String
known_arch arch =
    if str_eq arch "amd64" || str_eq arch "x86_64" || str_eq arch "x64"
    then "x86_64"
    else if str_eq arch "arm64" || str_eq arch "aarch64" || str_eq arch "arm64/v8"
    then "aarch64"
    else if str_eq arch "386" || str_eq arch "i386" || str_eq arch "i686"
    then "x86"
    else arch

unfoldable pub normalise_arch : String → String
unfolding known_arch
normalise_arch arch = known_arch (trim arch)

-- One component of a path, in lower case.
is_translator_name : List ℕ → Bool
is_translator_name c =
    same_chars c (codes "rosetta")
    || begins c (codes "rosetta-")
    || same_chars c (codes "qemu-user")
    || (begins c (codes "qemu-") && not (begins c (codes "qemu-system")))

unfoldable pub path_is_translator : String → Bool
unfolding is_translator_name
path_is_translator path =
    any (λ component. is_translator_name (lowered component)) (split_on b'/' path)

-- The text from its first whitespace on, where it has one.
from_whitespace : String → Option String
from_whitespace String.[] = none
from_whitespace (String.◌∷◌ c s) =
    if is_whitespace (code c) then some (String.◌∷◌ c s) else from_whitespace s

-- The loop over the fields in front of the path: `none` is its return without one.
after_fields : ℕ → String → Option String
unfolding from_whitespace trim_start
after_fields zero rest = some rest
after_fields (suc n) rest = from_whitespace (trim_start rest) >>? after_fields n

path_after : Option String → String
path_after none = ""
path_after (some rest) = trim rest

unfoldable pub maps_path : String → String
unfolding after_fields path_after
maps_path line = path_after (after_fields 5 line)

maps_path_test :
    (maps_path "7f0-7f1 r-xp 00000000 00:2b 12   /run/my tools/rosetta" ≡ "/run/my tools/rosetta")
    × (maps_path "7f0-7f1 rw-p 00000000 00:00 0" ≡ "")
    × (path_is_translator "/run/my tools/Rosetta" ≡ true)
    × (path_is_translator "/opt/qemuchart/lib.so" ≡ false)
    × (path_is_translator "/usr/bin/qemu-system-x86_64" ≡ false)
    × (path_is_translator "/usr/bin/qemu-x86_64" ≡ true)
unfolding maps_path path_is_translator trim_start is_whitespace trim split_on
maps_path_test = (refl, refl, refl, refl, refl, refl)

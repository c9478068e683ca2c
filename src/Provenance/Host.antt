-- ===== src/Provenance/Host.antt =====
-- src/provenance.rs: the probes of the host. Files, commands and system calls are fields of `Machine`.
use Prim.Native.Char.{code}
use Prim.Native.String.{len}
use mathlib.Core.Option
use libviprs_bench.Base.{
  ℕ, ◌^◌, String, Bool, true, false, not, ◌&&◌, ◌||◌, List, [], ◌∷◌, Option, none, some, ◌&◌, codes,
  join, str_eq, if◌then◌else◌, ltb, leb, ◌==◌, parse_uint, trim, lines, words, split_on, split_once,
  after_prefix, all, get_elem?,
}
use libviprs_bench.Archive.Build.{contains}
use libviprs_bench.Emulation.{EmulationReport}
use libviprs_bench.Json.{◌>>?◌}
use libviprs_bench.Json.Keys.{is_some}
use libviprs_bench.Sha256.{hex_text}
use libviprs_bench.Provenance.{LoadAverage, FilesystemInfo}

pub record Machine : Type 0 where
  -- `read_to_string`, where it succeeds, and `Path::exists`
  pub read : String → Option String
  pub exists : String → Bool
  -- the entries of a directory
  pub read_dir : String → Option (List String)
  -- `vips --version`: that it succeeded, and what it printed
  pub vips : Option (Bool × String)
  -- `canonicalize`
  pub canonical : String → Option String
  -- `f_type` of the file system of the nearest ancestor that exists
  pub statfs_type : String → Option ℕ
  pub parallelism : Option ℕ
  pub arch : String
  pub os : String
  pub emulation : EmulationReport
  -- `str::parse` of an `f64`, `a / b`, and `0.0 < a`
  pub parse_f64 : String → Option ℕ
  pub divide : ℕ → ℕ → ℕ
  pub is_positive : ℕ → Bool

abbrev max_u64 : ℕ
max_u64 = 18446744073709551615

abbrev starts_with : String → String → Bool
starts_with prefix s = is_some (after_prefix (codes prefix) s)

vips_text : String → Option String → String
vips_text s none = s
vips_text s (some v) = v

module _ (machine : Machine) where
  unfoldable pub libvips_version : Option (Bool × String) → String
  unfolding vips_text after_prefix trim
  libvips_version none = "unknown"
  libvips_version (some (false, out)) = "unknown"
  libvips_version (some (true, out)) =
      vips_text (trim out) (after_prefix (codes "vips-") (trim out))

  -- The first line of a model name, with its value.
  model_name : List String → Option String
  unfolding split_once after_prefix trim
  model_name [] = none
  model_name (line ∷ rest) =
      let later = model_name rest in
      elim (split_once b':' line) [
        | none ↦ later
        | some (k, v) ↦ if starts_with "model name" line then some (trim v) else later
      ]

  first_starting : String → List String → Option String
  unfolding after_prefix
  first_starting field [] = none
  first_starting field (line ∷ rest) =
      let later = first_starting field rest in if starts_with field line then some line else later

  cpu_parts : List String → List String → List String
  unfolding first_starting split_once trim
  cpu_parts ls [] = []
  cpu_parts ls (field ∷ fields) =
      let rest = cpu_parts ls fields in
      elim (first_starting field ls >>? split_once b':') [
        | none ↦ rest
        | some (k, v) ↦ (field & "=" & trim v) ∷ rest
      ]

  abbrev filled : Option String → Option String
  filled none = none
  filled (some s) = if str_eq s "" then none else some s

  -- `trim_end_matches('\0')`
  without_nuls : String → String
  without_nuls String.[] = ""
  without_nuls (String.◌∷◌ c s) =
      let rest = without_nuls s in if str_eq rest "" && code c == 0 then "" else String.◌∷◌ c rest

  or_parts : List String → String
  or_parts [] = "unknown"
  or_parts (part ∷ parts) = machine.arch & " " & join " " (part ∷ parts)

  cpu_from : List String → Option String → String
  unfolding model_name cpu_parts or_parts without_nuls trim
  cpu_from ls (some name) = name
  cpu_from ls none =
      elim (filled
        (Option.map (λ m. trim (without_nuls m)) (machine.read "/proc/device-tree/model"))) [
          | some model ↦ model
          | none ↦ or_parts (
              cpu_parts ls
                ("CPU implementer" ∷ "CPU architecture" ∷ "CPU part" ∷ "CPU variant" ∷ []))
        ]

  unfoldable pub cpu_model : Option String → String
  unfolding cpu_from model_name lines
  cpu_model none = "unknown"
  cpu_model (some text) = cpu_from (lines text) (model_name (lines text))

  three_loads : List String → Option LoadAverage
  three_loads (a ∷ b ∷ c ∷ rest) = machine.parse_f64 a >>? λ one_min.
      machine.parse_f64 b >>? λ five_min. machine.parse_f64 c >>? λ fifteen_min.
      some (record { one_min = one_min; five_min = five_min; fifteen_min = fifteen_min })
  three_loads _ = none

  unfoldable pub load_average : Option LoadAverage
  unfolding three_loads words
  load_average = machine.read "/proc/loadavg" >>? λ text. three_loads (words text)

  larger : Option ℕ → Option ℕ → Option ℕ
  larger none n = n
  larger (some m) none = some m
  larger (some m) (some n) = some (if ltb m n then n else m)

  counter : String → Option ℕ
  unfolding trim parse_uint
  counter path = machine.read path >>? λ text. parse_uint max_u64 (trim text)

  is_cpu : Option String → Bool
  is_cpu none = false
  is_cpu (some rest) = not (str_eq rest "") && all (λ c. leb b'0' c && leb c b'9') (codes rest)

  throttles : List String → Option ℕ → Option ℕ
  unfolding larger counter is_cpu after_prefix
  throttles [] max = max
  throttles (name ∷ names) max =
      let dir = "/sys/devices/system/cpu/" & name & "/thermal_throttle/" in
      throttles names (
        if is_cpu (after_prefix (codes "cpu") name)
        then larger (larger max (counter (dir & "core_throttle_count")))
            (counter (dir & "package_throttle_count"))
        else max)

  unfoldable pub thermal_throttle_count : Option ℕ
  unfolding throttles
  thermal_throttle_count =
      machine.read_dir "/sys/devices/system/cpu" >>? λ names. throttles names none

  names_container : Option String → Bool
  names_container none = false
  names_container (some text) =
      contains text "docker" || contains text "kubepods" || contains text "containerd"

  unfoldable pub detect_container : Bool
  unfolding names_container
  detect_container = machine.exists "/.dockerenv" || names_container (machine.read "/proc/1/cgroup")

  magic_name : ℕ → String
  unfolding hex_text
  magic_name magic =
      if magic == 0xef53
      then "ext4"
      else if magic == 0x58465342
      then "xfs"
      else if magic == 0x9123683e
      then "btrfs"
      else if magic == 0x01021994
      then "tmpfs"
      else if magic == 0x794c7630
      then "overlay"
      else if magic == 0x6969
      then "nfs"
      else if magic == 0x01021997
      then "9p"
      else if magic == 0x65737546
      then "fuse"
      else if magic == 0x2fc12fc1
      then "zfs"
      else if magic == 0x73717368
      then "squashfs"
      else if magic == 0x5346544e
      then "ntfs"
      else if magic == 0x4d44
      then "vfat"
      else if magic == 0x2011bab0
      then "exfat"
      else if magic == 0xca451a4e
      then "bcachefs"
      else "unknown-" & hex_text magic

  unfoldable pub fs_type_name : String → String
  unfolding magic_name
  fs_type_name dir = elim (machine.statfs_type dir) [
    | none ↦ "unknown"
    | some magic ↦ magic_name magic
  ]

  -- The path is the mount point, or goes on below it.
  goes_below : String → Option String → Bool
  goes_below mount_point none = false
  goes_below mount_point (some String.[]) = true
  goes_below mount_point (some (String.◌∷◌ c s)) = str_eq mount_point "/" || code c == b'/'

  -- The field two behind the separator; `none` without a separator.
  source_after : List String → Option String
  source_after [] = none
  source_after (f ∷ fields) =
      let later = source_after fields in
      if str_eq f "-"
      then some (elim (get_elem? fields 1) [ none ↦ "" | some source ↦ source ])
      else later

  -- The length of the best mount point so far, its source, and whether it is a bind mount.
  abbrev Best : Type 0
  Best = Option (ℕ × String × Bool)

  best_length : Best → ℕ
  best_length none = 0
  best_length (some (n, source, bind)) = n

  better : Best → String → String → Option String → Best
  unfolding best_length
  better best root mount_point none = best
  better best root mount_point (some source) =
      if leb (best_length best) (len mount_point)
      then some (len mount_point, source, not (str_eq root "/"))
      else best

  mount_line : String → Best → List String → Best
  unfolding goes_below better source_after after_prefix
  mount_line target best (a ∷ b ∷ c ∷ root ∷ mount_point ∷ f ∷ g ∷ rest) =
      if goes_below mount_point (after_prefix (codes mount_point) target)
      then better best root mount_point
          (source_after (a ∷ b ∷ c ∷ root ∷ mount_point ∷ f ∷ g ∷ rest))
      else best
  mount_line target best _ = best

  mount_lines : String → Best → List String → Best
  unfolding mount_line split_on
  mount_lines target best [] = best
  mount_lines target best (line ∷ rest) =
      mount_lines target (mount_line target best (split_on b' ' line)) rest

  abbrev mount_of : Best → Option String × Option Bool
  mount_of none = (none, none)
  mount_of (some (n, source, bind)) = (some source, some bind)

  unfoldable pub mount_entry : String → Option String × Option Bool
  unfolding mount_lines lines
  mount_entry dir = elim (machine.read "/proc/self/mountinfo") [
    | none ↦ (none, none)
    | some text ↦ mount_of (mount_lines dir none (lines text))
  ]

  unfoldable pub filesystem_of : String → FilesystemInfo
  unfolding mount_entry fs_type_name
  filesystem_of dir =
      let canonical : String = elim (machine.canonical dir) [ none ↦ dir | some path ↦ path ] in
      let (mount_source, bind_mount) = mount_entry canonical in
      record {
        scratch_dir = canonical;
        fs_type = fs_type_name canonical;
        mount_source = mount_source;
        bind_mount = bind_mount;
        declared_tmpfs = false;
      }

  quota_words : List String → Option ℕ
  quota_words (quota ∷ period ∷ rest) = machine.parse_f64 period >>? λ p.
      if str_eq quota "max"
      then none
      else machine.parse_f64 quota >>? λ q. some (machine.divide q p)
  quota_words _ = none

  trimmed_f64 : String → Option ℕ
  unfolding trim
  trimmed_f64 path = machine.read path >>? λ text. machine.parse_f64 (trim text)

  unfoldable pub cgroup_cpu_quota : Option ℕ
  unfolding quota_words trimmed_f64 words
  cgroup_cpu_quota = elim (machine.read "/sys/fs/cgroup/cpu.max") [
    | some text ↦ quota_words (words text)
    | none ↦ trimmed_f64 "/sys/fs/cgroup/cpu/cpu.cfs_quota_us" >>? λ quota.
        trimmed_f64 "/sys/fs/cgroup/cpu/cpu.cfs_period_us" >>? λ period.
        if machine.is_positive quota && machine.is_positive period
        then some (machine.divide quota period)
        else none
  ]

  memory_text : String → Option ℕ
  unfolding parse_uint
  memory_text text = if str_eq text "max" then none else parse_uint max_u64 text

  -- The first version spells unlimited as a number near the top of the address space.
  below_unlimited : ℕ → Option ℕ
  below_unlimited raw = if ltb raw (2 ^ 62) then some raw else none

  unfoldable pub cgroup_memory_limit : Option ℕ
  unfolding memory_text below_unlimited trim parse_uint
  cgroup_memory_limit = elim (machine.read "/sys/fs/cgroup/memory.max") [
    | some text ↦ memory_text (trim text)
    | none ↦ machine.read "/sys/fs/cgroup/memory/memory.limit_in_bytes" >>? λ text.
        parse_uint max_u64 (trim text) >>? below_unlimited
  ]

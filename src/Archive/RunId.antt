-- ===== src/Archive/RunId.antt =====
-- src/storage/archive.rs: `run_id`, derived from the document alone.
pub mod Dashed
pub mod Evidence
pub mod Reads
use libviprs_bench.Base.{
  ℕ, Bool, true, false, String, List, [], ◌∷◌, Option, none, some, ◌≡◌, refl, ◌==◌, if◌then◌else◌,
  str_eq, codes, filter_chars, is_ascii_alphanumeric, split_once, join, ◌&◌, Result, ok, err, ◌>>=◌,
}
use Prim.Native.Char.{code}
use Prim.Native.String.{slice}
use libviprs_bench.Json.{Value}
use libviprs_bench.Crates.{Crates}
use libviprs_bench.Sha256.{as_bytes, sha256_hex}
use libviprs_bench.Archive.Document.{at, non_empty_str}

pub data RunIdError : Type 0 where
  missing : String → RunIdError

-- `s.ends_with('Z')`
ends_with_z : String → Bool
ends_with_z String.[] = false
ends_with_z (String.◌∷◌ c String.[]) = code c == b'Z'
ends_with_z (String.◌∷◌ c (String.◌∷◌ d s)) = ends_with_z (String.◌∷◌ d s)

without_fraction : String → Option (String × String) → String
unfolding ends_with_z
without_fraction iso none = iso
without_fraction iso (some (head, tail)) = head & (if ends_with_z tail then "Z" else "")

unfoldable pub compact_timestamp : String → String
unfolding filter_chars without_fraction split_once
compact_timestamp iso =
    filter_chars is_ascii_alphanumeric (without_fraction iso (split_once b'.' iso))

compact_test : compact_timestamp "2026-09-13T21:45:00.123Z" ≡ "20260913T214500Z"
unfolding compact_timestamp
compact_test = refl

abbrev or_unknown : Option String → String
or_unknown none = "unknown"
or_unknown (some s) = s

module _ (crates : Crates) where
  open crates use {serde, hash}

  emulated_text : Option Value → String
  emulated_text none = "absent"
  emulated_text (some v) = serde.to_string v

  -- The first eight hexadecimal characters over the fields that decide comparability.
  unfoldable pub host8 : Value → String
  unfolding emulated_text
  host8 doc =
      slice
        (sha256_hex hash (
          as_bytes (
            codes (
              join "\0" (
                or_unknown (non_empty_str doc "provenance.os")
                ∷ or_unknown (non_empty_str doc "provenance.arch")
                ∷ or_unknown (non_empty_str doc "provenance.cpuModel")
                ∷ or_unknown (non_empty_str doc "provenance.node.rustc")
                ∷ or_unknown (non_empty_str doc "provenance.filesystem.fsType")
                ∷ emulated_text (at doc "provenance.emulated")
                ∷ [])))))
        0 8

  or_missing : String → Option String → Result RunIdError String
  or_missing path none = err (missing path)
  or_missing path (some s) = ok s

  unfoldable pub run_id : Value → Result RunIdError String
  unfolding or_missing host8
  run_id doc = do
    started_at ← or_missing "startedAt" (non_empty_str doc "startedAt")
    commit ← or_missing "provenance.library.commit" (non_empty_str doc "provenance.library.commit")
    ok (compact_timestamp started_at & "-" & commit & "-" & host8 doc)

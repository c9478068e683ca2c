-- ===== src/Archive/Seal.antt =====
-- src/storage/archive.rs: `seal` and `seal_text`. The clock's reading is an argument.
pub mod Verified
use libviprs_bench.Base.{String, Result, ok, err, ◌>>=◌, map_err, ◌&◌}
use libviprs_bench.Json.{Value, string, object, Map, empty}
use libviprs_bench.Crates.{Crates, Digests}
use libviprs_bench.Canonical.{Canonical, malformed}
use libviprs_bench.Integrity.{compute_digests, parse_document}

pub record Sealed : Type 0 where
  pub text : String
  pub digests : Digests

abbrev pub map_of : Value → Map
map_of (object m) = m
map_of _ = empty

module _ (crates : Crates) where
  open crates use {serde, seals}

  -- The same evidence, with the time it was combined and the four digests.
  unfoldable pub sealed_map : String → Digests → Map → Map
  sealed_map now digests m =
      serde.insert "integrity" (seals.to_value digests) (serde.insert "combinedAt" (string now) m)

  unfoldable pub seal : String → Value → Canonical Sealed
  seal now doc = do
    digests ← compute_digests crates doc
    body ← map_err malformed (serde.to_string_pretty (object (sealed_map now digests (map_of doc))))
    ok (record { text = body & "\n"; digests = digests })

  unfoldable pub seal_text : String → String → Canonical Sealed
  seal_text now text = parse_document crates text >>= seal now

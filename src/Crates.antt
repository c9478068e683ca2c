-- ===== src/Crates.antt =====
-- The libraries behind the archive, as one parameter: the standard library's printing, serde_json,
-- the derived serialisation of `Digests`, and the hash of the sha2 crate. `Digests` itself is the
-- struct of src/storage/integrity.rs.
use libviprs_bench.Base.{ℕ, ◌<◌, String, List, All, length, some, Option, ◌≡◌}
use libviprs_bench.Json.{Value, string, get}
use libviprs_bench.Json.Serde.{Serde}
use libviprs_bench.Format.{Fmt}

-- The four digests that a sealed storage document carries.
pub record Digests : Type 0 where
  pub cells : String
  pub runners : String
  pub measurements : String
  pub document : String

-- `serde_json::to_value` and `from_value` at `Digests`, which the derived code decides.
pub record Seals : Type 0 where
  pub to_value : Digests → Value
  pub from_value : Value → Option Digests
  pub from_value-to_value : (d : Digests) → from_value (to_value d) ≡ some d
  -- the struct is an object with a field of each name
  pub get_document-to_value : (d : Digests) → get (to_value d) "document" ≡ some (string d.document)

-- `Sha256::digest`: 32 bytes.
pub record Hash : Type 0 where
  pub sha256 : List ℕ → List ℕ
  pub length-sha256 : (bytes : List ℕ) → length (sha256 bytes) ≡ 32
  pub sha256-bytes : (bytes : List ℕ) → All (λ b. b < 256) (sha256 bytes)

pub record Crates : Type 0 where
  pub fmt : Fmt
  pub serde : Serde
  pub seals : Seals
  pub hash : Hash

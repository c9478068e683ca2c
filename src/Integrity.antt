-- ===== src/Integrity.antt =====
-- src/storage/integrity.rs, the digests: `digest`, `compute_digests`, `document_evidence`, `verify`
-- and its report, and the entry points that take a document's stored text.
pub mod Same
pub mod Verify
use libviprs_bench.Base.{
  ℕ, ◌+◌, Bool, true, false, not, ◌&&◌, String, List, [], ◌∷◌, ◌++◌, ◌≡◌, refl, Option, none, some,
  if◌then◌else◌, codes, ◌&◌, str_eq, Result, ok, err, ◌>>=◌, map_err, map,
}
use libviprs_bench.Json.{Value, null, object, lookup, get, is_null, ◌>>?◌}
use libviprs_bench.Format.{Fmt}
use libviprs_bench.Crates.{Digests, Crates}
use libviprs_bench.Sha256.{as_bytes, sha256_hex}
use libviprs_bench.Canonical.{
  CanonicalError, Canonical, non_finite, out_of_plain_range, unsafe_integer, non_ascii_key,
  malformed, canonical_json,
}

-- `Display` of a `CanonicalError`
unfoldable pub show_error : Fmt → CanonicalError → String
show_error fmt (non_finite path) =
    path
    & " is NaN or an infinity; a digest over it would be a digest over a measurement that went "
    & "wrong, written as though it had not"
show_error fmt (out_of_plain_range path value) =
    path
    & " is "
    & fmt.lower_exp value
    & ", which JavaScript prints in exponent form and Rust prints in full, so the two languages "
    & "would digest different bytes"
show_error fmt (unsafe_integer path value) =
    path & " is " & value
    & ", beyond 2^53-1, so JavaScript loses its low bits on parse while Rust keeps them"
show_error fmt (non_ascii_key path key) =
    path
    & " has the non-ASCII key "
    & fmt.debug key
    & "; JavaScript sorts keys by UTF-16 code unit and Rust by UTF-8 byte, and those two orders "
    & "only agree on ASCII"
show_error fmt (malformed detail) = "the document is not JSON: " & detail

pub record VerifyReport : Type 0 where
  pub recomputed : Digests
  pub stated : Option Digests
  pub moved : List String
  pub unchanged : List String
  pub malformed_integrity : Bool

abbrev pub is_empty {ℓ} : {A : Type ℓ} → List A → Bool
is_empty [] = true
is_empty (x ∷ xs) = false

-- `VerifyReport::ok`
abbrev pub holds : VerifyReport → Bool
holds r = elim r.stated [ none ↦ false | some _ ↦ is_empty r.moved ]

-- The line of one block that moved.
moved_line : Digests → Digests → String → String
moved_line stated recomputed block =
    let (says, now) : String × String =
      if str_eq block "cells"
      then (stated.cells, recomputed.cells)
      else if str_eq block "runners"
      then (stated.runners, recomputed.runners)
      else if str_eq block "measurements"
      then (stated.measurements, recomputed.measurements)
      else (stated.document, recomputed.document) in
    "REFUSED: the " & block & " block moved. The document says " & says
    & " and the content now digests to " & now & "."

-- `VerifyReport::lines`
unfoldable pub lines : VerifyReport → List String
unfolding moved_line
lines r = elim r.stated [
  | none ↦
      (if r.malformed_integrity
        then "REFUSED: the document carries an integrity block that is not four digests, so it was "
          & "sealed by something that does not agree with this one about what a seal is. The content "
          & "digests to " & r.recomputed.document & "."
        else "REFUSED: the document carries no integrity block, so there is nothing to verify it "
          & "against.")
      ∷ []
  | some stated ↦
      if is_empty r.moved
      then ("verified: all four digests still hold (document " & r.recomputed.document & ")") ∷ []
      else map (moved_line stated r.recomputed) r.moved
]

-- The top-level key that each block digest covers, `BLOCKS`.
abbrev pub cells_key : String
cells_key = "cells"

abbrev pub runners_key : String
runners_key = "runner"

abbrev pub measurements_key : String
measurements_key = "measurement"

abbrev pub digested_keys : List String
digested_keys = cells_key ∷ runners_key ∷ measurements_key ∷ []

abbrev pub or_null : Option Value → Value
or_null none = null
or_null (some v) = v

-- The loop of `verify` over the four blocks: those that moved, and those that did not.
compare_blocks : List (String × String × String) → List String × List String
compare_blocks [] = ([], [])
compare_blocks ((name, claimed, actual) ∷ blocks) =
    let (moved, unchanged) = compare_blocks blocks in
    if str_eq claimed actual then (moved, name ∷ unchanged) else (name ∷ moved, unchanged)

blocks_of : Digests → Digests → List (String × String × String)
blocks_of stated recomputed =
    ("cells", stated.cells, recomputed.cells)
    ∷ ("runners", stated.runners, recomputed.runners)
    ∷ ("measurements", stated.measurements, recomputed.measurements)
    ∷ ("document", stated.document, recomputed.document)
    ∷ []

pub compare_stated : Option Digests → Digests → List String × List String
unfolding compare_blocks blocks_of
compare_stated none recomputed = ([], [])
compare_stated (some stated) recomputed = compare_blocks (blocks_of stated recomputed)

abbrev pub non_null : Option Value → Bool
non_null none = false
non_null (some v) = not (is_null v)

abbrev is_none : Option Digests → Bool
is_none none = true
is_none (some _) = false

module _ (crates : Crates) where
  open crates use {fmt, serde, seals, hash}

  unfoldable pub digest : Value → Canonical String
  digest v = do text ← canonical_json fmt v; ok ("sha256:" & sha256_hex hash (as_bytes text))

  unfoldable pub document_evidence : Value → Value
  document_evidence (object m) = object (serde.remove "combinedAt" (serde.remove "integrity" m))
  document_evidence other = other

  unfoldable pub compute_digests : Value → Canonical Digests
  compute_digests doc = do
    cells ← digest (or_null (get doc cells_key))
    runners ← digest (or_null (get doc runners_key))
    measurements ← digest (or_null (get doc measurements_key))
    document ← digest (document_evidence doc)
    ok (record {
      cells = cells;
      runners = runners;
      measurements = measurements;
      document = document;
    })

  unfoldable pub verify : Value → Canonical VerifyReport
  unfolding compare_stated
  verify doc = do
    recomputed ← compute_digests doc
    let stated : Option Digests = get doc "integrity" >>? seals.from_value
    let (moved, unchanged) = compare_stated stated recomputed
    ok (record {
      recomputed = recomputed;
      stated = stated;
      moved = moved;
      unchanged = unchanged;
      malformed_integrity = non_null (get doc "integrity") && is_none stated;
    })

  unfoldable pub parse_document : String → Canonical Value
  parse_document text = map_err malformed (serde.from_str text)

  unfoldable pub compute_digests_from_text : String → Canonical Digests
  compute_digests_from_text text = parse_document text >>= compute_digests

  unfoldable pub digest_from_text : String → Canonical String
  digest_from_text text = parse_document text >>= digest

  unfoldable pub canonical_json_from_text : String → Canonical (List ℕ)
  canonical_json_from_text text = parse_document text >>= canonical_json fmt

  unfoldable pub verify_text : String → Canonical VerifyReport
  verify_text text = parse_document text >>= verify

-- ===== src/Integrity/Same.antt =====
-- src/storage/integrity.rs: the digests of two documents with the same evidence.
use libviprs_bench.Base.{
  false, String, ◌≡◌, refl, ap, ◌∙◌, Option, none, arith, str_eq, if◌then◌else◌, ok, >>=-eq-ok,
}
use libviprs_bench.Json.{Value, object, Map, lookup, IsUnique}
use libviprs_bench.Json.Keys.{SameLookups}
use libviprs_bench.Crates.{Digests, Crates}
use libviprs_bench.Canonical.{canonical_json}
use libviprs_bench.Canonical.Maps.{write_canonical-same}
use libviprs_bench.Integrity.{
  cells_key, runners_key, measurements_key, or_null, digest, document_evidence, compute_digests,
}

-- The two objects hold the same value at every key but `integrity` and `combinedAt`.
abbrev pub SameEvidence : Map → Map → Type 0
SameEvidence m n =
    (k : String)
    → str_eq "integrity" k ≡ false
    → str_eq "combinedAt" k ≡ false
    → lookup k m ≡ lookup k n

module _ (crates : Crates) where
  open crates use {fmt, serde, seals, hash}

  digest-same :
      (m n : Map) {d : String}
      → IsUnique m
      → IsUnique n
      → SameLookups m n
      → digest crates (object m) ≡ ok d
      → digest crates (object n) ≡ ok d
  unfolding digest canonical_json
  digest-same m n u v same h =
      let (text, written, e) = >>=-eq-ok (canonical_json fmt (object m)) _ h in
      rw (write_canonical-same fmt m n "$" u v same written) e

  evidence_map : Map → Map
  evidence_map m = serde.remove "combinedAt" (serde.remove "integrity" m)

  evidence-IsUnique : (m : Map) → IsUnique m → IsUnique (evidence_map m)
  unfolding evidence_map
  evidence-IsUnique m u =
      serde.remove-IsUnique "combinedAt" _ (serde.remove-IsUnique "integrity" m u)

  lookup-evidence_map :
      (k : String) (m : Map)
      → IsUnique m
      → lookup k (evidence_map m) ≡ (
          if str_eq "combinedAt" k then none else if str_eq "integrity" k then none else lookup k m)
  unfolding evidence_map
  lookup-evidence_map k m u =
      serde.lookup-remove "combinedAt" k _ (serde.remove-IsUnique "integrity" m u)
      ∙ ap (λ (r : Option Value). if str_eq "combinedAt" k then none else r)
          (serde.lookup-remove "integrity" k m u)

  evidence-same :
      (m n : Map)
      → IsUnique m
      → IsUnique n
      → SameEvidence m n
      → SameLookups (evidence_map m) (evidence_map n)
  evidence-same m n u v same k =
      ground (arith, lookup-evidence_map k m u, lookup-evidence_map k n v, same k)

  document_digest-same :
      (m n : Map) {d : String}
      → IsUnique m
      → IsUnique n
      → SameEvidence m n
      → digest crates (document_evidence crates (object m)) ≡ ok d
      → digest crates (document_evidence crates (object n)) ≡ ok d
  unfolding document_evidence evidence_map
  document_digest-same m n u v same =
      digest-same (evidence_map m) (evidence_map n) (evidence-IsUnique m u) (evidence-IsUnique n v)
        (evidence-same m n u v same)

  -- Where two objects with unique keys hold the same value at every key but `integrity` and
  -- `combinedAt`, in whatever order, and the one has digests, the other has the same four.
  pub compute_digests-same :
      (m n : Map) {d : Digests}
      → IsUnique m
      → IsUnique n
      → SameEvidence m n
      → compute_digests crates (object m) ≡ ok d
      → compute_digests crates (object n) ≡ ok d
  unfolding compute_digests
  compute_digests-same m n u v same h =
      let (cells, c, h1) = >>=-eq-ok (digest crates (or_null (lookup cells_key m))) _ h in
      let (runners, r, h2) = >>=-eq-ok (digest crates (or_null (lookup runners_key m))) _ h1 in
      let (measurements, q, h3) =
        >>=-eq-ok (digest crates (or_null (lookup measurements_key m))) _ h2 in
      let (document, e, h4) =
        >>=-eq-ok (digest crates (document_evidence crates (object m))) _ h3 in
      rw
        (
          ← same cells_key refl refl,
          ← same runners_key refl refl,
          ← same measurements_key refl refl,
          c,
          r,
          q,
          document_digest-same m n u v same e,
        )
        h4

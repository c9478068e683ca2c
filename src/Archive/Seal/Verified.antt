-- ===== src/Archive/Seal/Verified.antt =====
-- What `seal` returns, against `verify_text`.
use libviprs_bench.Base.{
  false, String, [], ◌≡◌, ap, ◌∙◌, Option, some, arith, str_eq, if◌then◌else◌, ok, err, >>=-eq-ok,
  Result, map_err, ◌&◌,
}
use libviprs_bench.Json.{Value, string, object, Map, lookup, IsUnique, ◌>>?◌}
use libviprs_bench.Crates.{Digests, Crates}
use libviprs_bench.Canonical.{malformed}
use libviprs_bench.Integrity.{compute_digests, verify, verify_text, parse_document}
use libviprs_bench.Integrity.Same.{SameEvidence, compute_digests-same}
use libviprs_bench.Integrity.Verify.{block_names, compare_stated_self}
use libviprs_bench.Archive.Seal.{Sealed, sealed_map, seal}

pub map_err-ok :
    {E F A : Type 0} (f : E → F) (r : Result E A) {a : A} → map_err f r ≡ ok a → r ≡ ok a
map_err-ok f (ok x) h = cc
map_err-ok f (err e) h = cc

module _ (crates : Crates) (now : String) (digests : Digests) (m : Map) where
  open crates use {serde, seals}

  lookup-sealed_map :
      (k : String)
      → lookup k (sealed_map crates now digests m) ≡ (
          if str_eq "integrity" k
          then some (seals.to_value digests)
          else if str_eq "combinedAt" k
          then some (string now)
          else lookup k m)
  unfolding sealed_map
  lookup-sealed_map k =
      serde.lookup-insert "integrity" k (seals.to_value digests) _
      ∙ ap (λ (r : Option Value). if str_eq "integrity" k then some (seals.to_value digests) else r)
          (serde.lookup-insert "combinedAt" k (string now) m)

  pub sealed_map-SameEvidence : SameEvidence m (sealed_map crates now digests m)
  sealed_map-SameEvidence k a b = ground (arith, lookup-sealed_map k)

  sealed_map-IsUnique : IsUnique m → IsUnique (sealed_map crates now digests m)
  unfolding sealed_map
  sealed_map-IsUnique u =
      serde.insert-IsUnique "integrity" _ _ (serde.insert-IsUnique "combinedAt" (string now) m u)

module _ (crates : Crates) (now : String) (m : Map) (u : IsUnique m) where
  open crates use {serde, seals}

  -- What a successful `seal` has computed.
  seal-ok :
      {s : Sealed}
      → seal crates now (object m) ≡ ok s
      → (compute_digests crates (object m) ≡ ok s.digests)
        × (parse_document crates s.text ≡ ok (object (sealed_map crates now s.digests m)))
  unfolding seal parse_document
  seal-ok {s} h =
      let (d, computed, h1) = >>=-eq-ok (compute_digests crates (object m)) _ h in
      let (body, printed, h2) = >>=-eq-ok (map_err malformed _) _ h1 in
      let e : ◌≡◌ {A = Sealed} (record { text = body & "\n"; digests = d }) s = cc in
      rw (← e) (
        computed,
        rw (
            serde.from_str-to_string_pretty (object (sealed_map crates now d m)) body
              (sealed_map-IsUnique crates now d m u) (map_err-ok malformed _ printed)),
      )

  -- What lies in the text of a successful `seal`.
  pub seal_stores :
      {s : Sealed}
      → seal crates now (object m) ≡ ok s
      → (stored : Map) × (parse_document crates s.text ≡ ok (object stored))
        × SameEvidence m stored
        × (compute_digests crates (object m) ≡ ok s.digests)
        × (compute_digests crates (object stored) ≡ ok s.digests)
        × ((lookup "integrity" stored >>? seals.from_value) ≡ some s.digests)
        × (verify_text crates s.text
            ≡ ok (record {
              recomputed = s.digests;
              stated = some s.digests;
              moved = [];
              unchanged = block_names;
              malformed_integrity = false;
            }))
  unfolding verify_text verify
  seal_stores {s} h =
      let (computed, parsed) = seal-ok h in
      let same : compute_digests crates (object (sealed_map crates now s.digests m))
          ≡ ok s.digests =
        compute_digests-same crates m (sealed_map crates now s.digests m) u
          (sealed_map-IsUnique crates now s.digests m u)
          (sealed_map-SameEvidence crates now s.digests m) computed in
      (
        sealed_map crates now s.digests m,
        parsed,
        sealed_map-SameEvidence crates now s.digests m,
        computed,
        same,
        rw (lookup-sealed_map crates now s.digests m "integrity")
            (seals.from_value-to_value s.digests),
        rw parsed (
            rw same (
              rw (lookup-sealed_map crates now s.digests m "integrity") (
                rw (seals.from_value-to_value s.digests)
                  (rw (compare_stated_self s.digests) (ground arith))))),
      )

  -- Where `seal` returns for an object whose keys are unique, the text that it returns parses to an
  -- object whose digests by `compute_digests` are the returned ones, as are those of the first, and
  -- that states these; and the text passes `verify_text`, with nothing moved.
  pub seal_verifies :
      {s : Sealed}
      → seal crates now (object m) ≡ ok s
      → (stored : Map) × (parse_document crates s.text ≡ ok (object stored))
        × (compute_digests crates (object m) ≡ ok s.digests)
        × (compute_digests crates (object stored) ≡ ok s.digests)
        × ((lookup "integrity" stored >>? seals.from_value) ≡ some s.digests)
        × (verify_text crates s.text
            ≡ ok (record {
              recomputed = s.digests;
              stated = some s.digests;
              moved = [];
              unchanged = block_names;
              malformed_integrity = false;
            }))
  seal_verifies h =
      let (stored, parsed, same, computed, again, states, verifies) = seal_stores h in
      (stored, parsed, computed, again, states, verifies)

-- ===== src/Integrity/Verify.antt =====
-- src/storage/integrity.rs: lemmas on `verify` and its report.
use text.Mathlib.TextPositions.{eq_refl}
use libviprs_bench.Base.{
  Bool, true, false, not, ◌&&◌, String, List, [], ◌∷◌, ◌≡◌, ◌↔◌, ap, ◌∙◌, sym, Option, none, some,
  arith, str_eq, str_eq_iff, ok, >>=-eq-ok,
}
use libviprs_bench.Json.{Value, get, ◌>>?◌}
use libviprs_bench.Json.Keys.{has}
use libviprs_bench.Crates.{Digests, Crates}
use libviprs_bench.Integrity.{
  VerifyReport, holds, is_empty, compare_stated, compute_digests, verify, non_null, is_none, digest,
  cells_key, runners_key, measurements_key, or_null, document_evidence,
}

abbrev pub block_names : List String
block_names = "cells" ∷ "runners" ∷ "measurements" ∷ "document" ∷ []

pub compare_stated_self : (d : Digests) → compare_stated (some d) d ≡ ([], block_names)
unfolding compare_stated
compare_stated_self d = simp eq_refl

-- A block is named as moved exactly if its stated digest is another one than the recomputed.
pub compare_stated-has :
    (s r : Digests)
    → (has "cells" (compare_stated (some s) r).0 ≡ not (str_eq s.cells r.cells))
      × (has "runners" (compare_stated (some s) r).0 ≡ not (str_eq s.runners r.runners))
      × (has "measurements" (compare_stated (some s) r).0
          ≡ not (str_eq s.measurements r.measurements))
      × (has "document" (compare_stated (some s) r).0 ≡ not (str_eq s.document r.document))
unfolding compare_stated
compare_stated-has s r = ground arith

digests_equal :
    (s r : Digests)
    → s.cells ≡ r.cells
    → s.runners ≡ r.runners
    → s.measurements ≡ r.measurements
    → s.document ≡ r.document
    → s ≡ r
digests_equal s r a b c d =
    λ i. record { cells = a i; runners = b i; measurements = c i; document = d i }

none_moved : (s r : Digests) → (is_empty (compare_stated (some s) r).0 ≡ true) ↔ (s ≡ r)
unfolding compare_stated
none_moved s r = (
  λ h. ground (
    arith,
    str_eq_iff s.cells r.cells,
    str_eq_iff s.runners r.runners,
    str_eq_iff s.measurements r.measurements,
    str_eq_iff s.document r.document,
    digests_equal s r,
  ),
  λ e. rw e (simp eq_refl),
)

stated_digests :
    (o : Option Digests) (d : Digests) (unchanged : List String) (b : Bool)
    → (holds (record {
      recomputed = d;
      stated = o;
      moved = (compare_stated o d).0;
      unchanged = unchanged;
      malformed_integrity = b;
    })
        ≡ true)
      ↔ (o ≡ some d)
unfolding compare_stated
stated_digests none d _ b = (λ h. ground arith, λ e. ground arith)
stated_digests (some s) d _ b = (λ h. ap some ((none_moved s d).0 h), λ e. (none_moved s d).1 (cc))

module _ (crates : Crates) where
  open crates use {seals}

  stated_in : Value → Option Digests
  stated_in doc = get doc "integrity" >>? seals.from_value

  report : Value → Digests → VerifyReport
  unfolding stated_in
  report doc d = record {
    recomputed = d;
    stated = stated_in doc;
    moved = (compare_stated (stated_in doc) d).0;
    unchanged = (compare_stated (stated_in doc) d).1;
    malformed_integrity = non_null (get doc "integrity") && is_none (stated_in doc);
  }

  -- What the report of `verify` holds.
  verify-ok :
      (doc : Value) {r : VerifyReport}
      → verify crates doc ≡ ok r
      → (d : Digests) × (compute_digests crates doc ≡ ok d) × (report doc d ≡ r)
  unfolding verify report stated_in
  verify-ok doc {r} h =
      let (d, computed, h1) = >>=-eq-ok (compute_digests crates doc) _ h in (d, computed, cc)

  -- Where `verify` returns a report, its recomputed digests are those that `compute_digests` gives of
  -- the document, and it is good exactly if the document states these four.
  pub verify-holds :
      (doc : Value) {r : VerifyReport}
      → verify crates doc ≡ ok r
      → (compute_digests crates doc ≡ ok r.recomputed)
        × ((holds r ≡ true) ↔ ((get doc "integrity" >>? seals.from_value) ≡ some r.recomputed))
  unfolding report stated_in
  verify-holds doc {r} h =
      let (d, computed, e) = verify-ok doc h in
      let iff =
        stated_digests (get doc "integrity" >>? seals.from_value) d (report doc d).unchanged
          (report doc d).malformed_integrity in
      rw (← e) (computed, iff)

  -- Where the document states digests, a block is named as moved exactly if its stated digest is not
  -- the recomputed one.
  pub verify-moved :
      (doc : Value) {r : VerifyReport} (s : Digests)
      → verify crates doc ≡ ok r
      → (get doc "integrity" >>? seals.from_value) ≡ some s
      → (has "cells" r.moved ≡ not (str_eq s.cells r.recomputed.cells))
        × (has "runners" r.moved ≡ not (str_eq s.runners r.recomputed.runners))
        × (has "measurements" r.moved ≡ not (str_eq s.measurements r.recomputed.measurements))
        × (has "document" r.moved ≡ not (str_eq s.document r.recomputed.document))
  unfolding report stated_in
  verify-moved doc {r} s h stated =
      let (d, computed, e) = verify-ok doc h in rw (← e) (rw stated (compare_stated-has s d))

  -- The digests of the four blocks, one by one.
  compute_digests-ok :
      (doc : Value) {d : Digests}
      → compute_digests crates doc ≡ ok d
      → (digest crates (or_null (get doc cells_key)) ≡ ok d.cells)
        × (digest crates (or_null (get doc runners_key)) ≡ ok d.runners)
        × (digest crates (or_null (get doc measurements_key)) ≡ ok d.measurements)
        × (digest crates (document_evidence crates doc) ≡ ok d.document)
  unfolding compute_digests
  compute_digests-ok doc {d} h =
      let (cells, c, h1) = >>=-eq-ok (digest crates (or_null (get doc cells_key))) _ h in
      let (runners, r, h2) = >>=-eq-ok (digest crates (or_null (get doc runners_key))) _ h1 in
      let (measurements, q, h3) =
        >>=-eq-ok (digest crates (or_null (get doc measurements_key))) _ h2 in
      let (document, e, h4) = >>=-eq-ok (digest crates (document_evidence crates doc)) _ h3 in
      (cc, cc, cc, cc)

  same_digest :
      (o p : Option Value) {a b : String}
      → digest crates (or_null o) ≡ ok a
      → digest crates (or_null p) ≡ ok b
      → o ≡ p
      → not (str_eq a b) ≡ false
  same_digest o p {a} {b} h k e = let equal : a ≡ b = cc in rw equal (simp eq_refl)

  -- Where `verify` returns a report on a document that states the digests of an original with the
  -- same `runner` and `measurement`, its recomputed digests are those that `compute_digests` gives of
  -- the document as it is now, neither of those two blocks is named as moved, and `cells` and
  -- `document` are named exactly if the recomputed digest is not the original's.
  pub verify-edit :
      (original edited : Value) {d : Digests} {r : VerifyReport}
      → compute_digests crates original ≡ ok d
      → (get edited "integrity" >>? seals.from_value) ≡ some d
      → verify crates edited ≡ ok r
      → get original runners_key ≡ get edited runners_key
      → get original measurements_key ≡ get edited measurements_key
      → (compute_digests crates edited ≡ ok r.recomputed)
        × (has "runners" r.moved ≡ false)
        × (has "measurements" r.moved ≡ false)
        × (has "cells" r.moved ≡ not (str_eq d.cells r.recomputed.cells))
        × (has "document" r.moved ≡ not (str_eq d.document r.recomputed.document))
  unfolding report
  verify-edit original edited {d} {r} sealed stated h keep_runners keep_measurements =
      let (dc, dr, dm, dd) = compute_digests-ok original sealed in
      let (now, computed, e) = verify-ok edited h in
      let (nc, nr, nm, nd) = compute_digests-ok edited computed in
      let (mc, mr, mm, md) = verify-moved edited d h stated in
      let same : r.recomputed ≡ now = ap (λ (x : VerifyReport). x.recomputed) (sym e) in
      (
        rw same computed,
        mr
            ∙ rw same (
                same_digest (get original runners_key) (get edited runners_key) dr nr keep_runners),
        mm
            ∙ rw same (
                same_digest (get original measurements_key) (get edited measurements_key) dm nm
                  keep_measurements),
        mc,
        md,
      )

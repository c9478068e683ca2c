-- ===== src/Archive/RunId/Evidence.antt =====
-- What a run's id depends on.
use libviprs_bench.Base.{◌≡◌, refl}
use libviprs_bench.Json.{object, Map}
use libviprs_bench.Crates.{Crates}
use libviprs_bench.Integrity.Same.{SameEvidence}
use libviprs_bench.Archive.RunId.{run_id}
use libviprs_bench.Archive.RunId.Reads.{run_id-agree}

module _ (crates : Crates) (m n : Map) (same : SameEvidence m n) where
  -- Two objects that hold the same value at every key but `integrity` and `combinedAt`, in
  -- whatever order, have the same id, or the same error in its place.
  pub run_id-same : run_id crates (object m) ≡ run_id crates (object n)
  run_id-same =
      run_id-agree crates (object m) (object n) (same "provenance" refl refl)
        (same "startedAt" refl refl)

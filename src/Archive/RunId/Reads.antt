-- ===== src/Archive/RunId/Reads.antt =====
-- src/storage/archive.rs: the fields of a document that its run id reads.
use libviprs_bench.Base.{String, List, ◌∷◌, ◌≡◌, refl, ap, split_on}
use libviprs_bench.Json.{Value, get, ◌>>?◌}
use libviprs_bench.Crates.{Crates}
use libviprs_bench.Archive.Document.{at, walk, non_empty_str, trimmed}
use libviprs_bench.Archive.RunId.{run_id, host8}

-- Two documents that agree at the first segment of a path agree at the path.
at-agree :
    (v w : Value) (path : String) {k : String} {rest : List String}
    → split_on b'.' path ≡ k ∷ rest
    → get v k ≡ get w k
    → at v path ≡ at w path
unfolding at
at-agree v w path {k} {rest} split h = rw split (ap (λ r. r >>? λ u. walk u rest) h)

non_empty_str-agree :
    (v w : Value) (path : String) {k : String} {rest : List String}
    → split_on b'.' path ≡ k ∷ rest
    → get v k ≡ get w k
    → non_empty_str v path ≡ non_empty_str w path
unfolding non_empty_str
non_empty_str-agree v w path split h = ap (λ r. r >>? trimmed) (at-agree v w path split h)

module _ (crates : Crates) (v w : Value) (origin : get v "provenance" ≡ get w "provenance") where
  host8-agree : host8 crates v ≡ host8 crates w
  unfolding host8 split_on
  host8-agree =
      rw
        (
          non_empty_str-agree v w "provenance.os" refl origin,
          non_empty_str-agree v w "provenance.arch" refl origin,
          non_empty_str-agree v w "provenance.cpuModel" refl origin,
          non_empty_str-agree v w "provenance.node.rustc" refl origin,
          non_empty_str-agree v w "provenance.filesystem.fsType" refl origin,
          at-agree v w "provenance.emulated" refl origin,
        )
        refl

  -- Nothing but the start and the provenance is read.
  pub run_id-agree : get v "startedAt" ≡ get w "startedAt" → run_id crates v ≡ run_id crates w
  unfolding run_id split_on
  run_id-agree start =
      rw
        (
          non_empty_str-agree v w "startedAt" refl start,
          non_empty_str-agree v w "provenance.library.commit" refl origin,
          host8-agree,
        )
        refl

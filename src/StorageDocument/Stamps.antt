-- ===== src/StorageDocument/Stamps.antt =====
-- src/storage/document.rs: the stamps against the checks of src/storage/archive.rs.
use libviprs_bench.Base.{
  ℕ, ◌+◌, true, false, String, List, [], ◌∷◌, ◌||◌, map, Option, none, some, ◌≡◌, refl, ap, sym,
  ◌∙◌, split_on,
}
use libviprs_bench.Json.{
  Value, null, bool, number, string, array, object, elements, items, get, lookup, ◌>>?◌, as_str,
}
use libviprs_bench.Crates.{Crates}
use libviprs_bench.Archive.RunId.{run_id}
use libviprs_bench.Archive.RunId.Reads.{run_id-agree}
use libviprs_bench.Archive.Document.{cells, at}
use libviprs_bench.Archive.Provenance.{enumerate, unstamped_cell, check_stamps, is_true}
use libviprs_bench.StorageDocument.Cell.{DocumentCell}
use libviprs_bench.StorageDocument.Whole.{
  Document, tree_is_dirty, flag_at, stamp_cell, stamp_dirty_from_provenance,
}
use libviprs_bench.StorageDocument.Wire.{cell_value, to_value, stamp_run_id, or_null, ok_or_none}

elements-items : (vs : List Value) → elements (items vs) ≡ vs
elements-items [] = refl
elements-items (v ∷ vs) = ap (λ r. v ∷ r) (elements-items vs)

pub get_provenance :
    (doc : Document) → get (to_value doc) "provenance" ≡ some (or_null (λ v. v) doc.provenance)
unfolding to_value lookup
get_provenance doc = refl

get_started_at : (doc : Document) → get (to_value doc) "startedAt" ≡ some (string doc.started_at)
unfolding to_value lookup
get_started_at doc = refl

is_true-flag : (o : Option Value) → is_true o ≡ flag_at o []
unfolding flag_at
is_true-flag none = refl
is_true-flag (some null) = refl
is_true-flag (some (bool true)) = refl
is_true-flag (some (bool false)) = refl
is_true-flag (some (number n)) = refl
is_true-flag (some (string s)) = refl
is_true-flag (some (array vs)) = refl
is_true-flag (some (object m)) = refl

flag_at-bind : (o : Option Value) → is_true (o >>? λ v. some v) ≡ flag_at o []
unfolding flag_at
flag_at-bind none = refl
flag_at-bind (some v) = is_true-flag (some v)

flag_at-key :
    (o : Option Value) (key : String)
    → is_true (o >>? λ v. get v key >>? λ w. some w) ≡ flag_at o (key ∷ [])
unfolding flag_at
flag_at-key none key = refl
flag_at-key (some v) key = flag_at-bind (get v key)

-- Both flags, as the archive walks to them from the provenance.
walked :
    (p : Option Value)
    → (is_true (get (or_null (λ v. v) p) "dirty" >>? λ v. some v)
        || is_true (get (or_null (λ v. v) p) "library" >>? λ v. get v "dirty" >>? λ w. some w))
      ≡ tree_is_dirty p
unfolding tree_is_dirty flag_at
walked none = refl
walked (some v) = rw (flag_at-bind (get v "dirty"), flag_at-key (get v "library") "dirty") refl

-- What the archive reads of the trees is what the stamp reads.
is_true-dirty :
    (doc : Document)
    → (is_true (at (to_value doc) "provenance.dirty")
        || is_true (at (to_value doc) "provenance.library.dirty"))
      ≡ tree_is_dirty doc.provenance
unfolding at split_on
is_true-dirty doc = rw get_provenance (walked doc.provenance)

module _ (crates : Crates) where
  unstamped-stamp_cell :
      (i : ℕ) (c : DocumentCell) → unstamped_cell crates i (cell_value (stamp_cell c)) ≡ []
  unfolding unstamped_cell cell_value stamp_cell lookup
  unstamped-stamp_cell i c = refl

  unstamped-stamped :
      (i : ℕ) (cs : List DocumentCell)
      → enumerate (unstamped_cell crates) i (map cell_value (map stamp_cell cs)) ≡ []
  unfolding enumerate
  unstamped-stamped i [] = refl
  unstamped-stamped i (c ∷ cs) = rw (unstamped-stamp_cell i c) (unstamped-stamped (i + 1) cs)

  pub cells-to_value : (doc : Document) → cells (to_value doc) ≡ map cell_value doc.cells
  unfolding cells to_value lookup
  cells-to_value doc = elements-items (map cell_value doc.cells)

  check_stamps-cells :
      (doc : Document)
      → check_stamps crates (to_value (record doc { cells = map stamp_cell doc.cells })) ≡ []
  unfolding check_stamps
  check_stamps-cells doc = rw (cells-to_value, unstamped-stamped 0 doc.cells) refl

  -- Where the archive reads in a document that a tree was dirty, and the document was stamped from
  -- its provenance, the archive finds no cell without the stamp.
  pub check_stamps-stamped :
      (doc : Document)
      → (is_true (at (to_value doc) "provenance.dirty")
          || is_true (at (to_value doc) "provenance.library.dirty"))
        ≡ true
      → check_stamps crates (to_value (stamp_dirty_from_provenance doc)) ≡ []
  unfolding stamp_dirty_from_provenance
  check_stamps-stamped doc dirty =
      let e : tree_is_dirty doc.provenance ≡ true = sym (is_true-dirty doc) ∙ dirty in
      rw e (check_stamps-cells doc)

  stamped_at : (id : Option String) → (some (or_null string id) >>? as_str) ≡ id
  stamped_at none = refl
  stamped_at (some id) = refl

  get_run_id : (doc : Document) → get (to_value doc) "runId" ≡ some (or_null string doc.run_id)
  unfolding to_value lookup
  get_run_id doc = refl

  -- Stamping does not change the run id that the archive derives from a document, nor whether it
  -- derives one, and the id that a stamped document carries is the one that the archive derives from
  -- the stamped document; it carries none where the archive derives none.
  pub run_id-stamp_run_id :
      (doc : Document)
      → (run_id crates (to_value (stamp_run_id crates doc)) ≡ run_id crates (to_value doc))
        × ((get (to_value (stamp_run_id crates doc)) "runId" >>? as_str)
            ≡ ok_or_none (run_id crates (to_value (stamp_run_id crates doc))))
  unfolding stamp_run_id
  run_id-stamp_run_id doc =
      let kept : run_id crates (to_value (stamp_run_id crates doc)) ≡ run_id crates (to_value doc) =
        run_id-agree crates (to_value (stamp_run_id crates doc)) (to_value doc)
          (get_provenance (stamp_run_id crates doc) ∙ sym (get_provenance doc))
          (get_started_at (stamp_run_id crates doc) ∙ sym (get_started_at doc)) in
      (
        kept,
        ap (λ r. r >>? as_str) (get_run_id (stamp_run_id crates doc))
            ∙ stamped_at (stamp_run_id crates doc).run_id
            ∙ ap ok_or_none (sym kept),
      )

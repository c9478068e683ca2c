-- ===== src/Provenance/Warned.antt =====
-- src/provenance.rs: the warnings against the refusals of src/storage/archive.rs.
use libviprs_bench.Base.{
  String, Bool, true, false, not, ◌&&◌, Option, none, some, ◌≡◌, refl, ap, ◌∙◌, split_on, str_eq,
  trim, arith, List, [], ◌∷◌, ◌++◌, if◌then◌else◌, ℕ, ◌+◌, ◌||◌, map,
}
use libviprs_bench.Json.{Value, lookup, bool, string}
use libviprs_bench.Crates.{Crates}
use libviprs_bench.Json.Keys.{is_some}
use libviprs_bench.Integrity.{is_empty}
use libviprs_bench.Archive.Document.{Refusal, at, non_empty_str}
use libviprs_bench.Archive.Provenance.{
  check_emulation, check_tree, refuse_emulated, is_absent, refuse_dirty, check_source_trees,
  check_dirt, check_stamps, unstamped_cell, enumerate, is_true,
}
use libviprs_bench.StorageDocument.Whole.{Document}
use libviprs_bench.StorageDocument.Wire.{to_value, or_null, cell_value}
use libviprs_bench.StorageDocument.Cell.{DocumentCell}
use libviprs_bench.StorageDocument.Stamps.{get_provenance, cells-to_value}
use libviprs_bench.Provenance.{
  Provenance, EmulationRecord, serialize_verdict, native, emulated, unobserved, TreeState,
  EmulationVerdict,
}
use libviprs_bench.Provenance.Block.{to_document_block, emulation_warnings, verdict_warnings}

-- The document carries the block of the provenance.
abbrev pub Carries : Option String → Value → Bool → Provenance → Document → Type 0
Carries core invocation allow_dirty p doc =
    doc.provenance ≡ some (to_document_block core p invocation allow_dirty)

module _ (core : Option String) (invocation : Value) (allow_dirty : Bool) (p : Provenance)
    (doc : Document) (carries : Carries core invocation allow_dirty p doc) where
  emulated_at :
      at (to_value doc) "provenance.emulated"
      ≡ some (or_null (λ e. serialize_verdict e.emulated) p.emulation)
  unfolding at split_on
  emulated_at = rw (get_provenance, carries) (unfold to_document_block lookup in refl)

  commit_at : at (to_value doc) "provenance.commit" ≡ some (or_null string p.trees.harness.commit)
  unfolding at split_on
  commit_at = rw (get_provenance, carries) (unfold to_document_block lookup in refl)

  dirty_at : at (to_value doc) "provenance.dirty" ≡ some (or_null bool p.trees.harness.dirty)
  unfolding at split_on
  dirty_at = rw (get_provenance, carries) (unfold to_document_block lookup in refl)

  library_commit_at :
      at (to_value doc) "provenance.library.commit" ≡ some (or_null string p.trees.library.commit)
  unfolding at split_on
  library_commit_at = rw (get_provenance, carries) (unfold to_document_block lookup in refl)

  library_dirty_at :
      at (to_value doc) "provenance.library.dirty" ≡ some (or_null bool p.trees.library.dirty)
  unfolding at split_on
  library_dirty_at = rw (get_provenance, carries) (unfold to_document_block lookup in refl)

  allowed_at : at (to_value doc) "provenance.allowDirty" ≡ some (bool allow_dirty)
  unfolding at split_on
  allowed_at = rw (get_provenance, carries) (unfold to_document_block lookup in refl)

-- The flag is there and set.
abbrev pub is_marked : Option Bool → Bool
is_marked none = false
is_marked (some b) = b

-- Every cell is marked as dirty.
abbrev pub is_stamped : List DocumentCell → Bool
is_stamped [] = true
is_stamped (c ∷ cs) = is_marked c.dirty && is_stamped cs

is_true-marked : (dirty : Option Bool) → is_true (some (or_null bool dirty)) ≡ is_marked dirty
is_true-marked none = refl
is_true-marked (some true) = refl
is_true-marked (some false) = refl

is_true-bool : (b : Bool) → is_true (some (bool b)) ≡ b
is_true-bool true = refl
is_true-bool false = refl

is_empty-append : {A : Type 0} (xs ys : List A) → is_empty (xs ++ ys) ≡ (is_empty xs && is_empty ys)
is_empty-append [] ys = refl
is_empty-append (x ∷ xs) ys = refl

all_empty :
    {A : Type 0} (xs ys zs : List A)
    → is_empty (xs ++ ys ++ zs) ≡ (is_empty xs && is_empty ys && is_empty zs)
all_empty [] [] zs = refl
all_empty [] (y ∷ ys) zs = refl
all_empty (x ∷ xs) ys zs = refl

-- The commit is recorded, and is more than whitespace.
unfoldable pub is_written : Option String → Bool
is_written none = false
is_written (some s) = not (str_eq (trim s) "")

-- A tree of which the archive asks nothing more.
abbrev pub is_recorded : TreeState → Bool
is_recorded tree = is_written tree.commit && is_some tree.dirty

guarded :
    {A : Type 0} (written : Bool) (x : A) (rest : List A)
    → is_empty ((if not written then x ∷ [] else []) ++ rest) ≡ (written && is_empty rest)
guarded true x rest = refl
guarded false x rest = refl

module _ (crates : Crates) where
  refuse_verdict :
      (doc : Value) (v : EmulationVerdict)
      → is_empty (refuse_emulated crates doc (some (serialize_verdict v)))
        ≡ is_empty (verdict_warnings v)
  unfolding refuse_emulated serialize_verdict verdict_warnings
  refuse_verdict doc native = refl
  refuse_verdict doc emulated = refl
  refuse_verdict doc unobserved = refl

  refuse_emulation :
      (doc : Value) (emulation : Option EmulationRecord)
      → is_empty (
          refuse_emulated crates doc (some (or_null (λ e. serialize_verdict e.emulated) emulation)))
        ≡ is_empty (emulation_warnings emulation)
  unfolding refuse_emulated emulation_warnings
  refuse_emulation doc none = refl
  refuse_emulation doc (some e) = refuse_verdict doc e.emulated

  absent-commit :
      (doc : Value) (path : String) (commit : Option String)
      → at doc path ≡ some (or_null string commit)
      → is_absent (non_empty_str doc path) ≡ not (is_written commit)
  unfolding non_empty_str is_written
  absent-commit doc path none h = rw h refl
  absent-commit doc path (some s) h = rw h (ground arith)

  refuse_dirty-none :
      (label path : String) (dirty : Option Bool)
      → is_empty (refuse_dirty crates label path (some (or_null bool dirty))) ≡ is_some dirty
  unfolding refuse_dirty
  refuse_dirty-none label path none = refl
  refuse_dirty-none label path (some b) = refl

  check_tree-none :
      (doc : Value) (label commit_path dirty_path : String) (tree : TreeState)
      → at doc commit_path ≡ some (or_null string tree.commit)
      → at doc dirty_path ≡ some (or_null bool tree.dirty)
      → is_empty (check_tree crates doc label commit_path dirty_path) ≡ is_recorded tree
  unfolding check_tree
  check_tree-none doc label commit_path dirty_path tree c d =
      rw (d, absent-commit doc commit_path tree.commit c)
        (guarded (is_written tree.commit) _ _
          ∙ ap (λ b. is_written tree.commit && b) (refuse_dirty-none label dirty_path tree.dirty))

  stamped_cell :
      (i : ℕ) (c : DocumentCell)
      → is_empty (unstamped_cell crates i (cell_value c)) ≡ is_marked c.dirty
  unfolding unstamped_cell cell_value lookup
  stamped_cell i c = marked c.dirty _
    where
      marked :
          (dirty : Option Bool) (name : String)
          → is_empty (if not (is_true (some (or_null bool dirty))) then name ∷ [] else [])
            ≡ is_marked dirty
      marked none name = refl
      marked (some true) name = refl
      marked (some false) name = refl

  stamped_cells :
      (i : ℕ) (cs : List DocumentCell)
      → is_empty (enumerate (unstamped_cell crates) i (map cell_value cs)) ≡ is_stamped cs
  unfolding enumerate
  stamped_cells i [] = refl
  stamped_cells i (c ∷ cs) =
      is_empty-append (unstamped_cell crates i (cell_value c)) _
      ∙ rw (stamped_cell i c, stamped_cells (i + 1) cs) refl

  check_stamps-none :
      (doc : Document) → is_empty (check_stamps crates (to_value doc)) ≡ is_stamped doc.cells
  unfolding check_stamps
  check_stamps-none doc = rw (cells-to_value crates doc) (
      settled (is_empty (enumerate (unstamped_cell crates) 0 (map cell_value doc.cells))) _
      ∙ stamped_cells 0 doc.cells)
    where
      settled : (b : Bool) (r : Refusal) → is_empty (if b then [] else r ∷ []) ≡ b
      settled true r = refl
      settled false r = refl

  dirt :
      (dirty allowed stamped : Bool) (stamps : List Refusal) (r : Refusal)
      → is_empty stamps ≡ stamped
      → is_empty (if not dirty then [] else if not allowed then r ∷ [] else stamps)
        ≡ (not dirty || (allowed && stamped))
  dirt false allowed stamped stamps r h = refl
  dirt true true stamped stamps r h = h
  dirt true false stamped stamps r h = refl

  dirt_lem :
      (core : Option String) (invocation : Value) (allow_dirty : Bool) (p : Provenance)
      (doc : Document)
      → Carries core invocation allow_dirty p doc
      → is_empty (check_dirt crates (to_value doc)) ≡ (
          not (is_marked p.trees.harness.dirty || is_marked p.trees.library.dirty)
          || (allow_dirty && is_stamped doc.cells))
  unfolding check_dirt
  dirt_lem core invocation allow_dirty p doc carries =
      rw
        (
          dirty_at core invocation allow_dirty p doc carries,
          library_dirty_at core invocation allow_dirty p doc carries,
          allowed_at core invocation allow_dirty p doc carries,
          is_true-marked p.trees.harness.dirty,
          is_true-marked p.trees.library.dirty,
          is_true-bool allow_dirty,
        )
        (dirt _ _ _ _ _ (check_stamps-none doc))

  -- A document that carries the block of a provenance is refused for its emulation exactly if the
  -- provenance has a warning of it. It is refused for its source trees exactly if of one of the two no
  -- commit that is more than whitespace, or no dirty flag, was recorded, or if one of them is dirty
  -- and that was not allowed or some cell is not marked as dirty.
  pub check_emulation-warned :
      (core : Option String) (invocation : Value) (allow_dirty : Bool) (p : Provenance)
      (doc : Document)
      → Carries core invocation allow_dirty p doc
      → (is_empty (check_emulation crates (to_value doc))
          ≡ is_empty (emulation_warnings p.emulation))
        × (is_empty (check_source_trees crates (to_value doc)) ≡ (
            is_recorded p.trees.harness
            && is_recorded p.trees.library
            && (not (is_marked p.trees.harness.dirty || is_marked p.trees.library.dirty)
                || (allow_dirty && is_stamped doc.cells))))
  unfolding check_emulation check_source_trees
  check_emulation-warned core invocation allow_dirty p doc carries =
      let harness =
        check_tree-none (to_value doc) "the harness" _ _ p.trees.harness
          (commit_at core invocation allow_dirty p doc carries)
          (dirty_at core invocation allow_dirty p doc carries) in
      let library =
        check_tree-none (to_value doc) "the measured library" _ _ p.trees.library
          (library_commit_at core invocation allow_dirty p doc carries)
          (library_dirty_at core invocation allow_dirty p doc carries) in
      (
        rw (emulated_at core invocation allow_dirty p doc carries)
            (refuse_emulation (to_value doc) p.emulation),
        all_empty
              (check_tree crates (to_value doc) "the harness" "provenance.commit"
                "provenance.dirty")
              (check_tree crates (to_value doc) "the measured library" "provenance.library.commit"
                "provenance.library.dirty")
              (check_dirt crates (to_value doc))
            ∙ rw (harness, library, dirt_lem core invocation allow_dirty p doc carries) refl,
      )

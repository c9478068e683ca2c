-- ===== src/StorageDocument/Table.antt =====
-- src/storage/document.rs: `rebuild_invariant_table`.
pub mod Unique
use libviprs_bench.Base.{
  ℕ, String, Bool, true, false, ◌&&◌, ◌||◌, List, [], ◌∷◌, ◌++◌, Option, none, some, if◌then◌else◌,
  str_eq, ◌==◌, any,
}
use mathlib.Core.Option
use libviprs_bench.Json.{Value, number, unsigned, string}
use libviprs_bench.StorageDocument.{InvariantBlock}
use libviprs_bench.StorageDocument.Cell.{DocumentCell}

pub record InvariantEntry : Type 0 where
  pub library : String
  pub scale : ℕ
  pub source : String
  pub name : String
  pub value : Value
  pub unit : String

-- Library, scale, source and name.
pub record Key : Type 0 where
  pub library : String
  pub scale : ℕ
  pub source : String
  pub name : String

unfoldable pub same_key : Key → Key → Bool
same_key a b =
    str_eq a.library b.library
    && a.scale == b.scale
    && str_eq a.source b.source
    && str_eq a.name b.name

-- `seen.contains(&key)`
unfoldable pub seen_before : Key → List Key → Bool
unfolding same_key
seen_before key seen = any (λ k. same_key k key) seen

-- What the loop keeps: the entries and the keys so far.
pub record Rows : Type 0 where
  pub out : List InvariantEntry
  pub seen : List Key

unfoldable pub key_of : DocumentCell → String → Key
key_of cell name = record {
  library = cell.backend;
  scale = cell.scale;
  source = cell.source;
  name = name;
}

entry_of : DocumentCell → String → Value → String → InvariantEntry
entry_of cell name value unit = record {
  library = cell.backend;
  scale = cell.scale;
  source = cell.source;
  name = name;
  value = value;
  unit = unit;
}

-- The closure `push` of one cell.
push_row : DocumentCell → String → String → Option Value → Rows → Rows
unfolding seen_before key_of entry_of
push_row cell name unit none rows = rows
push_row cell name unit (some value) rows =
    if seen_before (key_of cell name) rows.seen then rows else record {
      out = rows.out ++ entry_of cell name value unit ∷ [];
      seen = rows.seen ++ key_of cell name ∷ [];
    }

counted : Option ℕ → Option Value
counted n = Option.map (λ m. number (unsigned m)) n

-- The invariants that are pushed, in order: name, unit and value.
invariants_of : InvariantBlock → List (String × String × Option Value)
unfolding counted
invariants_of inv =
    ("output_bytes", "bytes", counted inv.output_bytes)
    ∷ ("allocated_bytes", "bytes", counted inv.allocated_bytes)
    ∷ ("filesystem_entries", "count", counted inv.filesystem_entries)
    ∷ ("directories", "count", counted inv.directories)
    ∷ ("tiles_produced", "count", counted inv.tiles_produced)
    ∷ ("artefact_digest", "sha256", Option.map string inv.artefact_digest)
    ∷ ("root_entries", "count", counted inv.root_entries)
    ∷ ("leaves", "count", counted inv.leaves)
    ∷ ("requests", "count", counted inv.requests)
    ∷ ("request_bytes", "bytes", counted inv.request_bytes)
    ∷ []

push_rows : DocumentCell → List (String × String × Option Value) → Rows → Rows
unfolding push_row
push_rows cell [] rows = rows
push_rows cell ((name, unit, value) ∷ rest) rows =
    push_rows cell rest (push_row cell name unit value rows)

push_cells : List DocumentCell → Rows → Rows
unfolding push_rows invariants_of
push_cells [] rows = rows
push_cells (cell ∷ cells) rows =
    push_cells cells (push_rows cell (invariants_of cell.invariants) rows)

unfoldable pub invariant_table : List DocumentCell → List InvariantEntry
unfolding push_cells
invariant_table cells = (push_cells cells (record { out = []; seen = [] })).out

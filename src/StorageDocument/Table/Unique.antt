-- ===== src/StorageDocument/Table/Unique.antt =====
-- src/storage/document.rs: the invariant table against the invariants of the cells.
use libviprs_bench.Base.{
  String, Bool, false, ◌&&◌, ◌||◌, List, [], ◌∷◌, map, Option, ◌≡◌, arith, All, Related,
}
use libviprs_bench.Json.{Value}
use libviprs_bench.Json.Keys.{is_some}
use libviprs_bench.StorageDocument.Cell.{DocumentCell}
use libviprs_bench.StorageDocument.Table.{
  InvariantEntry, Key, same_key, seen_before, Rows, key_of, invariants_of,
}

abbrev pub entry_key : InvariantEntry → Key
entry_key e = record { library = e.library; scale = e.scale; source = e.source; name = e.name }

abbrev pub IsOther : Key → Key → Type 0
IsOther a b = same_key a b ≡ false

-- The cell has a value for the invariant of the key.
abbrev states : Key → DocumentCell → List (String × String × Option Value) → Bool
states key cell [] = false
states key cell ((name, unit, value) ∷ rest) =
    (is_some value && same_key (key_of cell name) key) || states key cell rest

-- Some cell has a value for the invariant of the key.
unfoldable pub is_stated : Key → List DocumentCell → Bool
unfolding invariants_of
is_stated key [] = false
is_stated key (cell ∷ cells) =
    states key cell (invariants_of cell.invariants) || is_stated key cells

others :
    (key : Key) (seen : List Key) → seen_before key seen ≡ false → All (λ k. IsOther k key) seen
unfolding seen_before
others key [] h = tt
others key (k ∷ seen) h = (ground arith, others key seen (ground arith))

-- The keys seen are those of the rows, and no two of them are the same.
record IsTable (rows : Rows) : Type 0 where
  keyed : map entry_key rows.out ≡ rows.seen
  apart : Related IsOther rows.seen

-- ===== src/Archive/Document.antt =====
-- src/storage/archive.rs, the readers of a document: `at`, `non_empty_str`, `cells`, `cell_name`,
-- `describe` and the refusals.
use libviprs_bench.Base.{
  ℕ, String, List, [], ◌∷◌, Option, none, some, if◌then◌else◌, str_eq, trim, split_on, show, ◌&◌,
}
use libviprs_bench.Json.{Value, null, array, get, as_str, as_u64, elements, ◌>>?◌}

pub record Refusal : Type 0 where
  pub code : String
  pub detail : String

abbrev pub refuse : String → String → Refusal
refuse code detail = record { code = code; detail = detail }

pub walk : Value → List String → Option Value
walk cursor [] = some cursor
walk cursor (segment ∷ path) = get cursor segment >>? λ v. walk v path

-- A nested path like `provenance.library.commit`.
unfoldable pub at : Value → String → Option Value
unfolding walk split_on
at doc path = walk doc (split_on b'.' path)

abbrev non_empty : String → Option String
non_empty s = if str_eq s "" then none else some s

abbrev pub trimmed : Value → Option String
trimmed v = as_str v >>? λ s. non_empty (trim s)

-- A text at the path, trimmed, or `none` for absent, no text, or nothing but space.
unfoldable pub non_empty_str : Value → String → Option String
unfolding at trim
non_empty_str doc path = at doc path >>? trimmed

abbrev items_of : Option Value → List Value
items_of (some (array vs)) = elements vs
items_of _ = []

unfoldable pub cells : Value → List Value
cells doc = items_of (get doc "cells")

-- How a refusal names a cell: backend, scenario and scale, as far as it has them.
label_of : String → Option String → Option String → Option ℕ → String
label_of name (some b) (some s) (some n) = name & " " & b & "/" & s & "@" & show n
label_of name (some b) (some s) none = name & " " & b & "/" & s
label_of name (some b) none _ = name
label_of name none _ _ = name

unfoldable pub cell_name : ℕ → Value → String
unfolding label_of show
cell_name index cell =
    label_of ("cell[" & show index & "]") (get cell "backend" >>? as_str)
      (get cell "scenario" >>? as_str) (get cell "scale" >>? as_u64)

-- How a refusal prints a value; absent and null stay apart.
unfoldable pub describe : (Value → String) → Option Value → String
describe to_string none = "absent"
describe to_string (some null) = "null"
describe to_string (some v) = to_string v

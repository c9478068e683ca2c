-- ===== src/Archive/Store/Index.antt =====
-- src/storage/archive.rs: `update_index`, which adds one row to the archive's index.
use libviprs_bench.Base.{
  Bool, true, false, ◌||◌, ◌++◌, String, List, [], ◌∷◌, Option, none, some, str_eq, str_ltb,
  if◌then◌else◌, map_err, ◌&◌,
}
use libviprs_bench.Json.{Value, string, array, object, empty, get, as_str, items, ◌>>?◌}
use libviprs_bench.Crates.{Crates}
use libviprs_bench.Integrity.{or_null}
use libviprs_bench.Archive.Document.{at}
use libviprs_bench.Archive.Store.{
  FilePath, M, ◌>>=◌, pure, lift, exists, read_to_string, write_atomically, io,
}

abbrev pub index_path : FilePath
index_path = record { stem = "index"; extension = "json" }

abbrev pub row_id : Value → Option String
row_id row = get row "runId" >>? as_str

-- `Ord` on `Option<&str>`
abbrev id_ltb : Option String → Option String → Bool
id_ltb none none = false
id_ltb none (some t) = true
id_ltb (some s) none = false
id_ltb (some s) (some t) = str_ltb s t

unfoldable pub insert_row : Value → List Value → List Value
insert_row row [] = row ∷ []
insert_row row (other ∷ rows) =
    let rest = insert_row row rows in
    if id_ltb (row_id other) (row_id row) then other ∷ rest else row ∷ other ∷ rows

-- `rows.sort_by(..)`, which is stable
unfoldable pub sort_rows : List Value → List Value
unfolding insert_row
sort_rows [] = []
sort_rows (row ∷ rows) = insert_row row (sort_rows rows)

abbrev same_id : String → Option String → Bool
same_id id none = false
same_id id (some s) = str_eq s id

unfoldable pub has_row : String → List Value → Bool
has_row id [] = false
has_row id (row ∷ rows) = same_id id (row_id row) || has_row id rows

module _ (crates : Crates) where
  open crates use {serde}

  unfoldable pub index_row : String → String → Value → Value
  unfolding at
  index_row id document_digest doc = object (
      serde.insert "file" (string (id & ".json")) (
        serde.insert "fsType" (or_null (at doc "provenance.filesystem.fsType")) (
          serde.insert "emulated" (or_null (at doc "provenance.emulated")) (
            serde.insert "libraryCommit" (or_null (at doc "provenance.library.commit")) (
              serde.insert "startedAt" (or_null (at doc "startedAt")) (
                serde.insert "documentDigest" (string document_digest)
                  (serde.insert "runId" (string id) empty)))))))

  unfoldable pub parse_rows : String → M (List Value)
  parse_rows text = lift (map_err io (serde.vec_from_str text))

  abbrev pub read_if : Bool → M (List Value)
  read_if true = read_to_string index_path >>= parse_rows
  read_if false = pure []

  -- The rows that are in the index.
  unfoldable pub read_rows : M (List Value)
  unfolding parse_rows
  read_rows = do found ← exists index_path; read_if found

  unfoldable pub add_row : String → String → Value → List Value → M (Unit {0})
  unfolding sort_rows index_row
  add_row id document_digest doc rows = if has_row id rows then pure tt else do
    body ← lift (
        map_err io (
          serde.to_string_pretty
            (array (items (sort_rows (rows ++ index_row id document_digest doc ∷ []))))))
    write_atomically index_path (body & "\n")

  unfoldable pub update_index : String → String → Value → M (Unit {0})
  unfolding add_row read_rows
  update_index id document_digest doc = do rows ← read_rows; add_row id document_digest doc rows

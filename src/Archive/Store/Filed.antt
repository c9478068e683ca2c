-- ===== src/Archive/Store/Filed.antt =====
-- src/storage/archive.rs: `archive_text` and `archive`, from the text that the producer wrote to the
-- filed document. The time at which `seal` reads the clock is an argument.
use libviprs_bench.Base.{
  Bool, true, false, String, List, [], ◌∷◌, Option, none, some, str_eq, if◌then◌else◌, err, map_err,
}
use libviprs_bench.Json.{Value, get, as_str, ◌>>?◌}
use libviprs_bench.Crates.{Crates}
use libviprs_bench.Planner.{Planner}
use libviprs_bench.Integrity.{parse_document}
use libviprs_bench.Archive.Document.{Refusal}
use libviprs_bench.Archive.Admit.{admit_text}
use libviprs_bench.Archive.RunId
use libviprs_bench.Archive.Seal.{Sealed, seal}
use libviprs_bench.Archive.Store.{
  FilePath, M, ◌>>=◌, ◌>>◌, pure, lift, exists, read_to_string, create_dir_all, write_atomically,
  refused, run_id, canonical, collision,
}
use libviprs_bench.Archive.Store.Index.{update_index}

pub record ArchiveEntry : Type 0 where
  pub run_id : String
  pub path : FilePath
  pub document_digest : String
  pub written : Bool

abbrev pub document_path : String → FilePath
document_path id = record { stem = id; extension = "json" }

abbrev text_or_empty : Option String → String
text_or_empty none = ""
text_or_empty (some s) = s

-- The digest that a filed document states.
unfoldable pub stated_digest : Value → String
stated_digest existing =
    text_or_empty (get existing "integrity" >>? λ i. get i "document" >>? as_str)

abbrev pub refuse_all : List Refusal → M (Unit {0})
refuse_all [] = pure tt
refuse_all (r ∷ rs) = lift (err (refused (r ∷ rs)))

abbrev pub entry : String → Sealed → Bool → ArchiveEntry
entry id sealed written = record {
  run_id = id;
  path = document_path id;
  document_digest = sealed.digests.document;
  written = written;
}

module _ (crates : Crates) where
  unfoldable pub index_again : String → Sealed → Value → M ArchiveEntry
  index_again id sealed value = do
    update_index crates id sealed.digests.document value
    pure (entry id sealed false)

  unfoldable pub compare_existing : String → Sealed → Value → Value → M ArchiveEntry
  unfolding index_again
  compare_existing id sealed value existing =
      if str_eq (stated_digest existing) sealed.digests.document
      then index_again id sealed value
      else lift (err (collision id (stated_digest existing) sealed.digests.document))

  unfoldable pub compare_text : String → Sealed → Value → String → M ArchiveEntry
  unfolding compare_existing
  compare_text id sealed value text = do
    existing ← lift (map_err canonical (parse_document crates text))
    compare_existing id sealed value existing

  -- The branch for a document of this id that is there already.
  unfoldable pub compare_filed : String → Sealed → Value → M ArchiveEntry
  unfolding compare_text
  compare_filed id sealed value = do
    text ← read_to_string (document_path id)
    compare_text id sealed value text

  unfoldable pub file_new : String → Sealed → Value → M ArchiveEntry
  file_new id sealed value = do
    write_atomically (document_path id) sealed.text
    update_index crates id sealed.digests.document value
    pure (entry id sealed true)

  abbrev pub file_found : String → Sealed → Value → Bool → M ArchiveEntry
  file_found id sealed value true = compare_filed id sealed value
  file_found id sealed value false = file_new id sealed value

  unfoldable pub file : String → Sealed → Value → M ArchiveEntry
  file id sealed value = do
    create_dir_all
    found ← exists (document_path id)
    file_found id sealed value found

  module _ (planner : Planner) (now : String) where
    unfoldable pub archive_text : String → M ArchiveEntry
    unfolding file compare_filed file_new
    archive_text text = do
      refusals ← lift (map_err canonical (admit_text crates planner text))
      refuse_all refusals
      value ← lift (map_err canonical (parse_document crates text))
      id ← lift (map_err run_id (RunId.run_id crates value))
      sealed ← lift (map_err canonical (seal crates now value))
      file id sealed value

    -- A document built in memory. `serde_json::to_string` of a `Value` does not fail.
    unfoldable pub archive : Value → M ArchiveEntry
    unfolding archive_text
    archive doc = archive_text (crates.serde.to_string doc)

-- ===== src/Archive/Store/Reported.antt =====
-- What a call of `archive_text` that returns an entry has filed.
use text.Mathlib.TextPositions.{eq_refl}
use libviprs_bench.Base.{
  Bool, true, false, String, some, ◌≡◌, refl, ap, ◌∙◌, sym, arith, str_eq, Bool-cases, inl, inr,
  Result, ok, err, map_err,
}
use libviprs_bench.Json.{Value, object, Map}
use libviprs_bench.Crates.{Crates}
use libviprs_bench.Integrity.{parse_document, is_empty}
use libviprs_bench.Archive.Document.{cells}
use libviprs_bench.Archive.Seal.{Sealed}
use libviprs_bench.Archive.Store.{
  FilePath, path_eq, World, ArchiveError, M, ◌>>=◌, ◌>>◌, read_to_string, and_then, pure, exists,
  create_dir_all, write, rename, nonce, temporary, clean_up, write_then_rename, write_atomically,
  move, canonical, collision, is_some,
}
use libviprs_bench.Archive.Store.Index.{index_path, update_index}
use libviprs_bench.Archive.Store.Filed.{
  ArchiveEntry, document_path, compare_filed, file_new, file_found, file, entry, index_again,
  compare_text, compare_existing, stated_digest,
}
use libviprs_bench.Archive.Store.Kept.{update_index-Fixes}

pub and_then-ok :
    {A B : Type 0} (r : Result ArchiveError A × World) (f : A → M B) {b : B} {w' : World}
    → and_then r f ≡ (ok b, w')
    → (a : A) × (v : World) × (r ≡ (ok a, v)) × (f a v ≡ (ok b, w'))
and_then-ok (ok a, v) f h = (a, v, refl, h)
and_then-ok (err e, v) f h = cc

path_eq_refl : (p : FilePath) → path_eq p p ≡ true
path_eq_refl p = simp eq_refl

write-ok :
    (p : FilePath) (text : String) (w : World) {u : Unit {0}} {w' : World}
    → write p text w ≡ (ok u, w')
    → w'.files p ≡ some text
unfolding write
write-ok p text w {u} {w'} h = ground (arith, path_eq_refl p)

rename-ok :
    (from to : FilePath) (w : World) {u : Unit {0}} {w' : World} {text : String}
    → w.files from ≡ some text
    → rename from to w ≡ (ok u, w')
    → w'.files to ≡ some text
unfolding rename move
rename-ok from to w {u} {w'} k h = ground (arith, path_eq_refl to)

clean_up-ok :
    (temp : FilePath) (r : Result ArchiveError (Unit {0}) × World) {u : Unit {0}} {w' : World}
    → clean_up temp r ≡ (ok u, w')
    → r ≡ (ok u, w')
unfolding clean_up
clean_up-ok temp (ok v, w) h = h
clean_up-ok temp (err e, w) h = cc

-- Where `write_atomically` returns without an error, the file at the path holds the whole text.
pub write_atomically-ok :
    (path : FilePath) (text : String) (w : World) {u : Unit {0}} {w' : World}
    → write_atomically path text w ≡ (ok u, w')
    → w'.files path ≡ some text
unfolding write_atomically write_then_rename
write_atomically-ok path text w h =
    let (n, v, read, h1) =
      and_then-ok (nonce w) (λ x. write_then_rename (temporary path w.process_id x) path text) h in
    let temp = temporary path w.process_id n in
    let (u1, v1, written, h2) =
      and_then-ok (write temp text v) (λ _ x. clean_up temp (rename temp path x)) h1 in
    rename-ok temp path v1 (write-ok temp text v written)
      (clean_up-ok temp (rename temp path v1) h2)

module _ (crates : Crates) where
  pub has_cells : (v : Value) → is_empty (cells v) ≡ false → (m : Map) × (v ≡ object m)
  unfolding cells
  has_cells (object m) h = (m, refl)
  has_cells v h = ground arith

  -- What a new document's entry says, and what was written.
  file_new-ok :
      (id : String) (sealed : Sealed) (value : Value) (w : World) {e : ArchiveEntry} {w' : World}
      → path_eq index_path (document_path id) ≡ false
      → file_new crates id sealed value w ≡ (ok e, w')
      → (e ≡ entry id sealed true) × (w'.files (document_path id) ≡ some sealed.text)
  unfolding file_new
  file_new-ok id sealed value w {e} {w'} other h =
      let (u, v, written, h1) =
        and_then-ok (write_atomically (document_path id) sealed.text w)
          (λ _. update_index crates id sealed.digests.document value >> pure (entry id sealed true))
          h in
      let (u1, v1, indexed, h2) =
        and_then-ok (update_index crates id sealed.digests.document value v)
          (λ _. pure (entry id sealed true)) h1 in
      let worlds : v1 ≡ w' = ap (λ r. r.1) h2 in
      let entries : ◌≡◌ {A = Result ArchiveError ArchiveEntry} (ok (entry id sealed true)) (ok e) =
        ap (λ r. r.0) h2 in
      let kept =
        update_index-Fixes crates (document_path id) id sealed.digests.document value refl other
          v in
      let files : v1.files (document_path id) ≡ v.files (document_path id) =
        ap (λ r. r.1.files (document_path id)) (sym indexed) ∙ kept in
      (
        cc,
        ap (λ x. x.files (document_path id)) (sym worlds)
            ∙ files
            ∙ write_atomically-ok (document_path id) sealed.text w written,
      )

  compare_existing-ok :
      (id : String) (sealed : Sealed) (value existing : Value) (w : World) {e : ArchiveEntry}
      {w' : World}
      → compare_existing crates id sealed value existing w ≡ (ok e, w')
      → e ≡ entry id sealed false
  unfolding compare_existing index_again
  compare_existing-ok id sealed value existing w {e} {w'} h =
      elim (Bool-cases (str_eq (stated_digest existing) sealed.digests.document)) [
        | inl same ↦
            let h0 : index_again crates id sealed value w ≡ (ok e, w') = sym (rw same refl) ∙ h in
            let (u, v, indexed, h1) =
              and_then-ok (update_index crates id sealed.digests.document value w)
                (λ _. pure (entry id sealed false)) h0 in
            let entries : ◌≡◌ {A = Result ArchiveError ArchiveEntry} (ok (entry id sealed false))
                (ok e) =
              ap (λ r. r.0) h1 in
            cc
        | inr moved ↦
            let refused : ◌≡◌ {A = Result ArchiveError ArchiveEntry × World}
                (err (collision id (stated_digest existing) sealed.digests.document), w)
                (ok e, w') =
              sym (rw moved refl) ∙ h in
            cc
      ]

  compare_filed-ok :
      (id : String) (sealed : Sealed) (value : Value) (w : World) {e : ArchiveEntry} {w' : World}
      → compare_filed crates id sealed value w ≡ (ok e, w')
      → e ≡ entry id sealed false
  unfolding compare_filed compare_text
  compare_filed-ok id sealed value w {e} {w'} h =
      let (text, v, read, h1) =
        and_then-ok (read_to_string (document_path id) w) (compare_text crates id sealed value) h in
      let (existing, v1, parsed, h2) =
        and_then-ok (map_err canonical (parse_document crates text), v)
          (compare_existing crates id sealed value) h1 in
      compare_existing-ok id sealed value existing v1 h2

  file_found-ok :
      (id : String) (sealed : Sealed) (value : Value) (found : Bool) (w : World) {e : ArchiveEntry}
      {w' : World}
      → path_eq index_path (document_path id) ≡ false
      → file_found crates id sealed value found w ≡ (ok e, w')
      → e.written ≡ true
      → (e ≡ entry id sealed true) × (w'.files (document_path id) ≡ some sealed.text)
  file_found-ok id sealed value true w other h new =
      let old : false ≡ true =
        ap (λ x. x.written) (sym (compare_filed-ok id sealed value w h)) ∙ new in
      ground (arith, old)
  file_found-ok id sealed value false w other h new = file_new-ok id sealed value w other h

  pub file-ok :
      (id : String) (sealed : Sealed) (value : Value) (w : World) {e : ArchiveEntry} {w' : World}
      → path_eq index_path (document_path id) ≡ false
      → file crates id sealed value w ≡ (ok e, w')
      → e.written ≡ true
      → (e ≡ entry id sealed true) × (w'.files (document_path id) ≡ some sealed.text)
  unfolding file
  file-ok id sealed value w {e} {w'} other h new =
      let (u, v, made, h1) =
        and_then-ok (create_dir_all w)
          (λ _. exists (document_path id) >>= file_found crates id sealed value) h in
      file_found-ok id sealed value (is_some (v.files (document_path id))) v other h1 new

-- ===== src/Archive/Store/Kept.antt =====
-- src/storage/archive.rs: what archiving does to the files that are there already.
use libviprs_bench.Base.{
  Bool-cases, Option-cases, inl, inr, Bool, true, false, String, List, [], ◌∷◌, Option, none, some,
  ◌++◌, ◌≡◌, refl, ap, ◌∙◌, sym, arith, str_eq, str_eq_iff, Result, ok, err, map_err, ◌&◌,
}
use libviprs_bench.Json.{Value, array, items}
use libviprs_bench.Crates.{Crates}
use libviprs_bench.Planner.{Planner}
use libviprs_bench.Integrity.{parse_document}
use libviprs_bench.Archive.Admit.{admit_text}
use libviprs_bench.Archive.Document.{Refusal}
use libviprs_bench.Archive.RunId
use libviprs_bench.Archive.Seal.{Sealed, seal}
use libviprs_bench.Archive.Store.{
  FilePath, path_eq, Files, World, ArchiveError, M, ◌>>=◌, ◌>>◌, and_then, pure, lift, exists,
  create_dir_all, read_to_string, write_atomically, io, run_id, canonical, collision, is_some,
}
use libviprs_bench.Archive.Store.Index.{
  index_path, index_row, read_if, parse_rows, read_rows, add_row, update_index, has_row, sort_rows,
}
use libviprs_bench.Archive.Store.Filed.{
  document_path, stated_digest, refuse_all, index_again, compare_text, compare_existing,
  compare_filed, file_new, file_found, entry, file, archive_text,
}
use libviprs_bench.Archive.Store.Fixed.{
  Fixes, and_then-Fixes, >>=-Fixes, create_dir_all-Fixes, read_to_string-Fixes,
  write_atomically-Fixes, if-Fixes,
}

pub path_eq-eq : (p q : FilePath) → path_eq p q ≡ true → p ≡ q
path_eq-eq p q h =
    let stems : p.stem ≡ q.stem = ground (arith, str_eq_iff p.stem q.stem) in
    let extensions : p.extension ≡ q.extension =
      ground (arith, str_eq_iff p.extension q.extension) in
    λ i. record { stem = stems i; extension = extensions i }

none≢some : {a : String} → ◌≡◌ {A = Option String} none (some a) → ⊥
none≢some h = cc

and_then-keeps :
    {A B : Type 0} (q : FilePath) {c : String} (r : Result ArchiveError A × World) (f : A → M B)
    → r.1.files q ≡ some c
    → ((a : A) (w : World) → w.files q ≡ some c → (f a w).1.files q ≡ some c)
    → (and_then r f).1.files q ≡ some c
and_then-keeps q (ok a, w) f there h = h a w there
and_then-keeps q (err e, w) f there h = there

refuse_all-Fixes : (q : FilePath) (rs : List Refusal) → Fixes q (refuse_all rs)
refuse_all-Fixes q [] w = refl
refuse_all-Fixes q (r ∷ rs) w = refl

module _ (crates : Crates) where
  open crates use {serde}

  read_if-Fixes : (q : FilePath) (found : Bool) → Fixes q (read_if crates found)
  unfolding parse_rows
  read_if-Fixes q true =
      >>=-Fixes q (read_to_string index_path) (parse_rows crates)
        (read_to_string-Fixes index_path q) (λ text w. refl)
  read_if-Fixes q false = λ w. refl

  read_rows-Fixes : (q : FilePath) → Fixes q (read_rows crates)
  unfolding read_rows
  read_rows-Fixes q = >>=-Fixes q (exists index_path) (read_if crates) (λ w. refl) (read_if-Fixes q)

  add_row-Fixes :
      (q : FilePath) (id digest : String) (doc : Value) (rows : List Value)
      → q.extension ≡ "json"
      → path_eq index_path q ≡ false
      → Fixes q (add_row crates id digest doc rows)
  unfolding add_row
  add_row-Fixes q id digest doc rows e h =
      if-Fixes q (has_row id rows) _ _ (λ w. refl)
        (>>=-Fixes q
          (lift (
            map_err io (
              serde.to_string_pretty
                (array (items (sort_rows (rows ++ index_row crates id digest doc ∷ [])))))))
          _ (λ w. refl) (λ body. write_atomically-Fixes index_path q (body & "\n") e h))

  pub update_index-Fixes :
      (q : FilePath) (id digest : String) (doc : Value)
      → q.extension ≡ "json"
      → path_eq index_path q ≡ false
      → Fixes q (update_index crates id digest doc)
  unfolding update_index
  update_index-Fixes q id digest doc e h =
      >>=-Fixes q (read_rows crates) _ (read_rows-Fixes q)
        (λ rows. add_row-Fixes q id digest doc rows e h)

  index_again-Fixes :
      (q : FilePath) (id : String) (sealed : Sealed) (value : Value)
      → q.extension ≡ "json"
      → path_eq index_path q ≡ false
      → Fixes q (index_again crates id sealed value)
  unfolding index_again
  index_again-Fixes q id sealed value e h =
      >>=-Fixes q (update_index crates id sealed.digests.document value)
        (λ _. pure (entry id sealed false))
        (update_index-Fixes q id sealed.digests.document value e h) (λ _ w. refl)

  compare_filed-Fixes :
      (q : FilePath) (id : String) (sealed : Sealed) (value : Value)
      → q.extension ≡ "json"
      → path_eq index_path q ≡ false
      → Fixes q (compare_filed crates id sealed value)
  unfolding compare_filed compare_text compare_existing
  compare_filed-Fixes q id sealed value e h =
      >>=-Fixes q (read_to_string (document_path id)) (compare_text crates id sealed value)
        (read_to_string-Fixes (document_path id) q)
        (λ text.
          >>=-Fixes q (lift (map_err canonical (parse_document crates text)))
            (compare_existing crates id sealed value) (λ w. refl)
            (λ existing.
              if-Fixes q (str_eq (stated_digest existing) sealed.digests.document)
                (index_again crates id sealed value)
                (lift (err (collision id (stated_digest existing) sealed.digests.document)))
                (index_again-Fixes q id sealed value e h) (λ w. refl)))

  file_new-Fixes :
      (q : FilePath) (id : String) (sealed : Sealed) (value : Value)
      → q.extension ≡ "json"
      → path_eq index_path q ≡ false
      → path_eq (document_path id) q ≡ false
      → Fixes q (file_new crates id sealed value)
  unfolding file_new
  file_new-Fixes q id sealed value e h k w =
      and_then-Fixes q (write_atomically (document_path id) sealed.text w)
        (λ _. update_index crates id sealed.digests.document value >> pure (entry id sealed true))
        (λ _ v.
          and_then-Fixes q (update_index crates id sealed.digests.document value v)
            (λ _. pure (entry id sealed true)) (λ _ u. refl)
          ∙ update_index-Fixes q id sealed.digests.document value e h v)
      ∙ write_atomically-Fixes (document_path id) q sealed.text e k w

  -- A file that is there cannot stand at a path where there is none.
  vacant :
      (p q : FilePath) {c : String} (files : Files)
      → files p ≡ none
      → files q ≡ some c
      → path_eq p q ≡ false
  vacant p q {c} files h k = elim (Bool-cases (path_eq p q)) [
    | inl same ↦ let e = path_eq-eq p q same in absurd (none≢some (sym h ∙ ap files e ∙ k))
    | inr other ↦ other
  ]

  file_found-keeps :
      (q : FilePath) {c : String} (id : String) (sealed : Sealed) (value : Value) (w : World)
      → q.extension ≡ "json"
      → path_eq index_path q ≡ false
      → w.files q ≡ some c
      → (file_found crates id sealed value (is_some (w.files (document_path id))) w).1.files q
        ≡ some c
  file_found-keeps q id sealed value w e h there =
      elim (Option-cases (w.files (document_path id))) [
        | inl absent ↦ rw absent (
            file_new-Fixes q id sealed value e h (vacant (document_path id) q w.files absent there)
              w
            ∙ there)
        | inr (content, present) ↦ rw present (compare_filed-Fixes q id sealed value e h w ∙ there)
      ]

  file-keeps :
      (q : FilePath) {c : String} (id : String) (sealed : Sealed) (value : Value) (w : World)
      → q.extension ≡ "json"
      → path_eq index_path q ≡ false
      → w.files q ≡ some c
      → (file crates id sealed value w).1.files q ≡ some c
  unfolding file
  file-keeps q id sealed value w e h there =
      and_then-keeps q (create_dir_all w)
        (λ _. exists (document_path id) >>= file_found crates id sealed value)
        (create_dir_all-Fixes q w ∙ there)
        (λ _ v still. file_found-keeps q id sealed value v e h still)

module _ (crates : Crates) (planner : Planner) (now : String) where
  -- Archiving never changes a document that is filed already, whichever call fails and whatever the
  -- outcome: every JSON file but the index has afterwards what it had before.
  pub archive_text-keeps :
      (text : String) (w : World) (q : FilePath) {c : String}
      → q.extension ≡ "json"
      → path_eq index_path q ≡ false
      → w.files q ≡ some c
      → (archive_text crates planner now text w).1.files q ≡ some c
  unfolding archive_text
  archive_text-keeps text w q e h there =
      and_then-keeps q (map_err canonical (admit_text crates planner text), w) _ there
        (λ refusals v still.
          and_then-keeps q (refuse_all refusals v) _ (refuse_all-Fixes q refusals v ∙ still)
            (λ _ v1 still1.
              and_then-keeps q (map_err canonical (parse_document crates text), v1) _ still1
                (λ value v2 still2.
                  and_then-keeps q (map_err run_id (RunId.run_id crates value), v2) _ still2
                    (λ id v3 still3.
                      and_then-keeps q (map_err canonical (seal crates now value), v3)
                        (λ sealed. file crates id sealed value) still3
                        (λ sealed v4 still4. file-keeps crates q id sealed value v4 e h still4)))))

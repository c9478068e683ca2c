-- ===== src/Archive/Store/Archived.antt =====
-- What a call of `archive_text` that filed a new document has written.
use libviprs_bench.Base.{
  append-empty, true, false, String, List, [], ◌∷◌, ◌++◌, some, ◌≡◌, refl, ap, subst, ◌∙◌, sym,
  str_eq, Result, ok, map_err, >>=-eq-ok,
}
use libviprs_bench.Json.{Value, get, object, Map, IsUnique, IsUniqueValue, ◌>>?◌}
use libviprs_bench.Crates.{Crates, Digests}
use libviprs_bench.Planner.{Planner}
use libviprs_bench.Canonical.{malformed}
use libviprs_bench.Integrity.{VerifyReport, holds, parse_document, verify_text, compute_digests}
use libviprs_bench.Integrity.Verify.{block_names}
use libviprs_bench.Archive.Admit.{admit, admit_text, integrity_refusals}
use libviprs_bench.Archive.Admission.{admit-none}
use libviprs_bench.Archive.Document.{Refusal}
use libviprs_bench.Archive.RunId
use libviprs_bench.Archive.RunId.Evidence.{run_id-same}
use libviprs_bench.Archive.Seal.{Sealed, seal}
use libviprs_bench.Archive.Seal.Verified.{seal_stores, map_err-ok}
use libviprs_bench.Archive.Store.{path_eq, World, ArchiveError, run_id, canonical}
use libviprs_bench.Archive.Store.Index.{index_path}
use libviprs_bench.Archive.Store.Filed.{ArchiveEntry, document_path, refuse_all, file, archive_text}
use libviprs_bench.Archive.Store.Reported.{and_then-ok, has_cells, file-ok}
use libviprs_bench.Archive.RunId.Dashed.{run_id-other}

refuse_all-ok :
    (rs : List Refusal) (w : World) {u : Unit {0}} {w' : World}
    → refuse_all rs w ≡ (ok u, w')
    → (rs ≡ []) × (w ≡ w')
refuse_all-ok [] w h = (refl, ap (λ r. r.1) h)
refuse_all-ok (r ∷ rs) w h = cc

lift-ok :
    {A E : Type 0} (f : E → ArchiveError) (r : Result E A) (w : World) {a : A} {v : World}
    → ◌≡◌ {A = Result ArchiveError A × World} (map_err f r, w) (ok a, v)
    → (r ≡ ok a) × (w ≡ v)
lift-ok f r w h = (map_err-ok f r (ap (λ x. x.0) h), ap (λ x. x.1) h)

other_path :
    (id : String) → str_eq "index" id ≡ false → path_eq index_path (document_path id) ≡ false
other_path id h = rw h refl

module _ (crates : Crates) (planner : Planner) (now : String) where
  open crates use {serde}

  admit_text-none :
      (text : String) (value : Value)
      → parse_document crates text ≡ ok value
      → admit_text crates planner text ≡ ok []
      → admit crates planner value ≡ []
  unfolding admit_text
  admit_text-none text value p h =
      let (v, parsed, e) = >>=-eq-ok (parse_document crates text) _ h in
      let same : v ≡ value = cc in
      let none_left : admit crates planner v ++ integrity_refusals crates planner v ≡ [] = cc in
      rw (← same)
        ((append-empty (admit crates planner v) (integrity_refusals crates planner v) none_left).0)

  parsed-object :
      (text : String) (value : Value)
      → parse_document crates text ≡ ok value
      → admit crates planner value ≡ []
      → (m : Map) × (value ≡ object m) × IsUnique m
  unfolding parse_document
  parsed-object text value p h =
      let (m, is_object) = has_cells crates value ((admit-none crates planner value h).has_cells) in
      let unique =
        serde.from_str-IsUnique text value (map_err-ok malformed (serde.from_str text) p) in
      (m, is_object, subst IsUniqueValue is_object unique)

  -- What a call that returned an entry has computed on the way.
  archive_text-steps :
      (text : String) (w : World) {e : ArchiveEntry} {w' : World}
      → archive_text crates planner now text w ≡ (ok e, w')
      → (value : Value) × (id : String) × (sealed : Sealed) × (parse_document crates text
          ≡ ok value)
        × (admit crates planner value ≡ [])
        × (RunId.run_id crates value ≡ ok id)
        × (seal crates now value ≡ ok sealed)
        × (file crates id sealed value w ≡ (ok e, w'))
  unfolding archive_text
  archive_text-steps text w {e} {w'} h =
      let (rs, w1, a1, h1) =
        and_then-ok (map_err canonical (admit_text crates planner text), w) _ h in
      let (u, w2, a2, h2) = and_then-ok (refuse_all rs w1) _ h1 in
      let (value, w3, a3, h3) =
        and_then-ok (map_err canonical (parse_document crates text), w2) _ h2 in
      let (id, w4, a4, h4) = and_then-ok (map_err run_id (RunId.run_id crates value), w3) _ h3 in
      let (sealed, w5, a5, h5) = and_then-ok (map_err canonical (seal crates now value), w4) _ h4 in
      let (admitted, e1) = lift-ok canonical (admit_text crates planner text) w a1 in
      let (none_left, e2) = refuse_all-ok rs w1 a2 in
      let (parsed, e3) = lift-ok canonical (parse_document crates text) w2 a3 in
      let (derived, e4) = lift-ok run_id (RunId.run_id crates value) w3 a4 in
      let (sealed_ok, e5) = lift-ok canonical (seal crates now value) w4 a5 in
      let worlds : w ≡ w5 = e1 ∙ e2 ∙ e3 ∙ e4 ∙ e5 in
      (
        value,
        id,
        sealed,
        parsed,
        admit_text-none text value parsed (admitted ∙ ap ok none_left),
        derived,
        sealed_ok,
        subst (λ x. file crates id sealed value x ≡ (ok e, w')) (sym worlds) h5,
      )

  -- Where `archive_text` returns an entry with `written`, the text is a document, the entry's run id
  -- is the one that `run_id` derives from it, and its path is the one of this id. There lies a text
  -- that passes `verify_text` and that parses to a document with the same run id and the same four
  -- digests as the one that came in; it states these digests, and the entry has that of the document.
  pub archive_text-written :
      (text : String) (w : World) {e : ArchiveEntry} {w' : World}
      → archive_text crates planner now text w ≡ (ok e, w')
      → e.written ≡ true
      → (value : Value) × (stored : Value) × (content : String) × (report : VerifyReport)
        × (digests : Digests) × (parse_document crates text ≡ ok value)
        × (RunId.run_id crates value ≡ ok e.run_id)
        × (e.path ≡ document_path e.run_id)
        × (w'.files e.path ≡ some content)
        × (parse_document crates content ≡ ok stored)
        × (RunId.run_id crates stored ≡ ok e.run_id)
        × (compute_digests crates value ≡ ok digests)
        × (compute_digests crates stored ≡ ok digests)
        × ((get stored "integrity" >>? crates.seals.from_value) ≡ some digests)
        × (e.document_digest ≡ digests.document)
        × (verify_text crates content ≡ ok report)
        × (holds report ≡ true)
  archive_text-written text w {e} {w'} h new =
      let (value, id, sealed, parsed, admitted, derived, sealed_ok, filed) =
        archive_text-steps text w h in
      let (m, is_object, unique) = parsed-object text value parsed admitted in
      let sealed_map : seal crates now (object m) ≡ ok sealed =
        subst (λ v. seal crates now v ≡ ok sealed) is_object sealed_ok in
      let (is_entry, there) =
        file-ok crates id sealed value w (other_path id (run_id-other crates value derived)) filed
          new in
      let (m_stored, parsed_back, same, computed, recomputed, states, verifies) =
        seal_stores crates now m unique sealed_map in
      let same_id : RunId.run_id crates (object m_stored) ≡ ok id =
        sym (run_id-same crates m m_stored same)
        ∙ ap (RunId.run_id crates) (sym is_object)
        ∙ derived in
      let named : id ≡ e.run_id = sym (ap (λ x. x.run_id) is_entry) in
      (
        value,
        object m_stored,
        sealed.text,
        record {
          recomputed = sealed.digests;
          stated = some sealed.digests;
          moved = [];
          unchanged = block_names;
          malformed_integrity = false;
        },
        sealed.digests,
        parsed,
        derived ∙ ap ok named,
        ap (λ x. x.path) is_entry ∙ ap document_path named,
        ap (λ x. w'.files x.path) is_entry ∙ there,
        parsed_back,
        same_id ∙ ap ok named,
        ap (compute_digests crates) is_object ∙ computed,
        recomputed,
        states,
        ap (λ x. x.document_digest) is_entry,
        verifies,
        refl,
      )

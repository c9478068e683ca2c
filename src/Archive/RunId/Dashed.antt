-- ===== src/Archive/RunId/Dashed.antt =====
-- src/storage/archive.rs: the form of a run's id, against the name of the index.
use libviprs_bench.Base.{
  ℕ, Bool, true, false, ◌||◌, ◌==◌, String, List, [], ◌∷◌, ◌++◌, ◌≡◌, refl, ap, ◌∙◌, arith, codes,
  codes-append, ◌&◌, ok, >>=-eq-ok, Bool-cases, inl, inr, str_eq, str_eq_iff,
}
use libviprs_bench.Json.{Value}
use libviprs_bench.Crates.{Crates}
use libviprs_bench.Archive.Document.{non_empty_str}
use libviprs_bench.Archive.RunId.{run_id, or_missing, compact_timestamp, host8}

has_dash : List ℕ → Bool
has_dash [] = false
has_dash (c ∷ cs) = c == b'-' || has_dash cs

has_dash-append : (xs ys : List ℕ) → has_dash (xs ++ b'-' ∷ ys) ≡ true
unfolding has_dash
has_dash-append [] ys = refl
has_dash-append (x ∷ xs) ys = ground (arith, has_dash-append xs ys)

dashed : (s t : String) → has_dash (codes (s & "-" & t)) ≡ true
dashed s t =
    rw (codes-append s ("-" & t)) (rw (codes-append "-" t) (has_dash-append (codes s) (codes t)))

no_dash : has_dash (codes "index") ≡ true → ⊥
unfolding has_dash
no_dash h = cc

module _ (crates : Crates) where
  run_id-dashed :
      (doc : Value) {id : String} → run_id crates doc ≡ ok id → has_dash (codes id) ≡ true
  unfolding run_id
  run_id-dashed doc {id} h =
      let (started_at, a, h1) =
        >>=-eq-ok (or_missing crates "startedAt" (non_empty_str doc "startedAt")) _ h in
      let (commit, b, h2) =
        >>=-eq-ok
          (or_missing crates "provenance.library.commit"
            (non_empty_str doc "provenance.library.commit"))
          _ h1 in
      let text = compact_timestamp started_at & "-" & commit & "-" & host8 crates doc in
      let e : text ≡ id = cc in
      rw (← e) (dashed (compact_timestamp started_at) (commit & "-" & host8 crates doc))

  -- No run is filed as the index.
  pub run_id-other :
      (doc : Value) {id : String} → run_id crates doc ≡ ok id → str_eq "index" id ≡ false
  run_id-other doc {id} h = elim (Bool-cases (str_eq "index" id)) [
    | inl same ↦
        let e : "index" ≡ id = ground (arith, str_eq_iff "index" id) in
        let dash : has_dash (codes "index") ≡ true =
          ap (λ x. has_dash (codes x)) e ∙ run_id-dashed doc h in
        absurd (no_dash dash)
    | inr other ↦ other
  ]

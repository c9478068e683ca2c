-- ===== src/History/Families.antt =====
-- src/lib.rs: lemmas on `push_snapshot` and `migrate_snapshot`.
use libviprs_bench.Base.{
  Bool, true, false, not, String, List, [], ◌∷◌, ◌++◌, ◌≡◌, refl, sym, arith, Option, none, some,
  str_eq, str_eq_iff, if◌then◌else◌, All, All-append, ok, err, subst,
}
use libviprs_bench.History.{BenchmarkSnapshot, push_snapshot, find_other, is_blank, push_unless}

module _ {R P : Type 0} where
  abbrev OfFamily : String → List (BenchmarkSnapshot R P) → Type 0
  OfFamily family history = All (λ (s : BenchmarkSnapshot R P). s.family ≡ family) history

  find_other-none :
      (family : String) (history : List (BenchmarkSnapshot R P))
      → find_other family history ≡ none
      → OfFamily family history
  find_other-none family [] h = tt
  find_other-none family (s ∷ history) h =
      let (here, later) = both s.family h in (here, find_other-none family history later)
    where
      both :
          (f : String)
          → (if not (str_eq f family) then some s else find_other family history) ≡ none
          → (f ≡ family) × (find_other family history ≡ none)
      both f k = ground (arith, str_eq_iff f family)

  pushed :
      (history : List (BenchmarkSnapshot R P)) (snapshot : BenchmarkSnapshot R P) (b : Bool)
      (o : Option (BenchmarkSnapshot R P)) (message : String) {after : List (BenchmarkSnapshot R P)}
      → (if b then err message else push_unless o history snapshot) ≡ ok after
      → (b ≡ false) × (o ≡ none) × (after ≡ history ++ snapshot ∷ [])
  pushed history snapshot true o message h = cc
  pushed history snapshot false none message h = (refl, refl, cc)
  pushed history snapshot false (some existing) message h = cc

  -- A snapshot that was appended names a family, it is the last of the history, and every snapshot of
  -- the history is of its family.
  pub push_snapshot-ok :
      (history : List (BenchmarkSnapshot R P)) (snapshot : BenchmarkSnapshot R P)
      {after : List (BenchmarkSnapshot R P)}
      → push_snapshot history snapshot ≡ ok after
      → (is_blank snapshot.family ≡ false)
        × (after ≡ history ++ snapshot ∷ [])
        × All (λ (s : BenchmarkSnapshot R P). s.family ≡ snapshot.family) after
  unfolding push_snapshot
  push_snapshot-ok history snapshot {after} h =
      let (named, fits, e) =
        pushed history snapshot (is_blank snapshot.family) (find_other snapshot.family history) _
          h in
      let before = find_other-none snapshot.family history fits in
      (
        named,
        e,
        subst (OfFamily snapshot.family) (sym e) (
            All-append (λ (s : BenchmarkSnapshot R P). s.family ≡ snapshot.family) history
              (snapshot ∷ []) before (refl, tt)),
      )

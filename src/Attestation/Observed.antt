-- ===== src/Attestation/Observed.antt =====
-- src/storage/attest.rs: when `attest` attests a cell.
use libviprs_bench.Base.{
  ℕ, String, Bool, true, false, not, ◌&&◌, List, [], ◌∷◌, ◌++◌, Option, some, ◌≡◌, refl, ◌⊎◌, inl,
  inr, ltb, ◌==◌, any, Bool-cases,
}
use libviprs_bench.Attestation.{
  Regime, root, leaves, same_regime, RootEntry, is_leaf_pointer, ObservedArchive, regime_of,
  observed_regime, EquivalenceSample, min_equivalence_sample, Attestation, attested, refused,
  declared_reasons, is_consistent, consistency_reasons, sample_reasons, verdict, attest,
}

abbrev pub has_entries : List RootEntry → Bool
has_entries [] = false
has_entries (entry ∷ entries) = true

-- The archive was seen to be of the regime: its entries, and its leaf directories.
abbrev pub is_shown : Regime → ObservedArchive → Bool
is_shown root archive =
    has_entries archive.root_entries
    && (not (any is_leaf_pointer archive.root_entries) && archive.leaf_directories == 0)
is_shown leaves archive = any is_leaf_pointer archive.root_entries && ltb 0 archive.leaf_directories

abbrev pub is_sampled : EquivalenceSample → Bool
is_sampled sample =
    not (ltb sample.sampled min_equivalence_sample) && sample.matched == sample.sampled

-- There are no reasons if the test holds, and there are some if not.
abbrev Reasons : Bool → List String → Type 0
Reasons test reasons =
    ((test ≡ true) × (reasons ≡ []))
    ⊎ ((test ≡ false) × (reason : String) × (rest : List String) × (reasons ≡ reason ∷ rest))

sample_reasons-Reasons :
    (sample : EquivalenceSample) → Reasons (is_sampled sample) (sample_reasons sample)
unfolding sample_reasons
sample_reasons-Reasons sample = elim (Bool-cases (ltb sample.sampled min_equivalence_sample)) [
  | inl few ↦ rw few (inr (refl, _, _, refl))
  | inr enough ↦ elim (Bool-cases (sample.matched == sample.sampled)) [
    | inl same ↦ rw (enough, same) (inl (refl, refl))
    | inr other ↦ rw (enough, other) (inr (refl, _, _, refl))
  ]
]

-- What the archive of these fields is seen to be.
abbrev archive_of : String → List RootEntry → ℕ → ℕ → ObservedArchive
archive_of backend entries n tiles = record {
  backend = backend;
  root_entries = entries;
  leaf_directories = n;
  tiles = tiles;
}

abbrev Seen : Regime → ObservedArchive → Type 0
Seen declared archive =
    Reasons (is_shown declared archive) (
      declared_reasons declared archive (observed_regime archive)
      ++ consistency_reasons archive (observed_regime archive))
    × (is_shown declared archive ≡ true → observed_regime archive ≡ some declared)

observed-Seen :
    (declared : Regime) (backend : String) (entries : List RootEntry) (n tiles : ℕ)
    → Seen declared (archive_of backend entries n tiles)
unfolding observed_regime regime_of declared_reasons consistency_reasons is_consistent same_regime
observed-Seen root backend [] n tiles = (inr (refl, _, _, refl), λ h. cc)
observed-Seen leaves backend [] n tiles = (inr (refl, _, _, refl), λ h. cc)
observed-Seen root backend (e ∷ es) n tiles = elim (Bool-cases (any is_leaf_pointer (e ∷ es))) [
  | inl pointer ↦ rw pointer (inr (refl, _, _, refl), λ h. cc)
  | inr flat ↦ elim (Bool-cases (n == 0)) [
    | inl none_there ↦ rw (flat, none_there) (inl (refl, refl), λ h. refl)
    | inr some_there ↦ rw (flat, some_there) (inr (refl, _, _, refl), λ h. cc)
  ]
]
observed-Seen leaves backend (e ∷ es) n tiles = elim (Bool-cases (any is_leaf_pointer (e ∷ es))) [
  | inr flat ↦ rw flat (inr (refl, _, _, refl), λ h. cc)
  | inl pointer ↦ elim (Bool-cases (ltb 0 n)) [
    | inr none_there ↦ rw (pointer, none_there) (inr (refl, _, _, refl), λ h. cc)
    | inl some_there ↦ rw (pointer, some_there) (inl (refl, refl), λ h. refl)
  ]
]

-- The outcome of an attestation: attested as declared, or refused with a reason.
abbrev pub Attests : Bool → Regime → EquivalenceSample → Option Attestation → Type 0
Attests test declared sample outcome =
    ((test ≡ true) × (outcome ≡ some (attested declared sample)))
    ⊎ ((test ≡ false)
        × (reason : String) × (rest : List String) × (outcome ≡ some (refused (reason ∷ rest))))

verdict-Attests :
    (declared : Regime) (sample : EquivalenceSample) (shown sampled : Bool) (xs ys : List String)
    (o : Option Regime)
    → Reasons shown xs
    → Reasons sampled ys
    → (shown ≡ true → o ≡ some declared)
    → Attests (shown && sampled) declared sample (verdict o sample (xs ++ ys))
unfolding verdict
verdict-Attests declared sample shown sampled xs ys o (inr (p, reason, rest, q)) ys_lem h =
    rw (p, q) (inr (refl, _, _, refl))
verdict-Attests declared sample shown sampled xs ys o (inl (p, q)) (inr (r, reason, rest, s)) h =
    rw (p, q, r, s) (inr (refl, _, _, refl))
verdict-Attests declared sample shown sampled xs ys o (inl (p, q)) (inl (r, s)) h =
    rw (p, q, r, s, h p) (inl (refl, refl))

-- A cell is attested as declared exactly if its archive was seen to be of the declared regime (for
-- the root some entries, no pointer to a leaf and no leaf directory, for the leaves a pointer and a
-- leaf directory) and the sample has the floor and matched in full; else it is refused with a
-- reason, and attesting never panics.
pub attest_lem :
    (declared : Regime) (archive : ObservedArchive) (sample : EquivalenceSample)
    → Attests
        (is_shown declared archive && is_sampled sample)
        declared
        sample
        (attest declared archive sample)
unfolding attest
attest_lem declared archive sample =
    let (reasons, observed) =
      observed-Seen declared archive.backend archive.root_entries archive.leaf_directories
        archive.tiles in
    verdict-Attests declared sample _ _ _ _ _ reasons (sample_reasons-Reasons sample) observed

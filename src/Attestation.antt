-- ===== src/Attestation.antt =====
-- src/storage/attest.rs, with `Regime` of src/storage/cells.rs: a cell's declared regime against the
-- archive that was seen, and the equivalence of the backends over a sample.
pub mod Observed
use libviprs_bench.Base.{
  ℕ, ◌+◌, ◌-◌, ◌%◌, ◌^◌, String, Bool, true, false, not, ◌||◌, List, [], ◌∷◌, ◌++◌, Option, none,
  some, ◌≡◌, refl, ◌&◌, show, if◌then◌else◌, ltb, ◌==◌, any, length,
}
use libviprs_bench.Sha256.{hex_text}

pub data Regime : Type 0 where
  root leaves : Regime

unfoldable pub regime_word : Regime → String
regime_word root = "root"
regime_word leaves = "leaf"

-- The derived `==` of `Regime`
unfoldable pub same_regime : Regime → Regime → Bool
same_regime root root = true
same_regime leaves leaves = true
same_regime _ _ = false

pub data RootEntry : Type 0 where
  tile leaf_pointer : RootEntry

unfoldable pub is_leaf_pointer : RootEntry → Bool
is_leaf_pointer tile = false
is_leaf_pointer leaf_pointer = true

pub record ObservedArchive : Type 0 where
  pub backend : String
  pub root_entries : List RootEntry
  pub leaf_directories : ℕ
  pub tiles : ℕ

regime_of : List RootEntry → Option Regime
unfolding is_leaf_pointer
regime_of [] = none
regime_of entries = if any is_leaf_pointer entries then some leaves else some root

unfoldable pub observed_regime : ObservedArchive → Option Regime
unfolding regime_of
observed_regime archive = regime_of archive.root_entries

pub record EquivalenceSample : Type 0 where
  pub seed : ℕ
  pub sampled : ℕ
  pub matched : ℕ

abbrev pub min_equivalence_sample : ℕ
min_equivalence_sample = 64

pub data Attestation : Type 0 where
  attested : Regime → EquivalenceSample → Attestation
  refused : List String → Attestation

unfoldable pub is_attested : Attestation → Bool
is_attested (attested regime sample) = true
is_attested (refused reasons) = false

unfoldable pub reasons_of : Attestation → List String
reasons_of (attested regime sample) = []
reasons_of (refused reasons) = reasons

count_pointers : List RootEntry → ℕ
unfolding is_leaf_pointer
count_pointers [] = 0
count_pointers (entry ∷ entries) =
    if is_leaf_pointer entry then 1 + count_pointers entries else count_pointers entries

declared_reasons : Regime → ObservedArchive → Option Regime → List String
unfolding regime_word same_regime count_pointers
declared_reasons declared archive none =
    ("the "
      & archive.backend
      & " archive's root directory has no entries, so no regime was observed and the cell's declared regime '"
      & regime_word declared
      & "' rests on nothing")
    ∷ []
declared_reasons declared archive (some seen) =
    if not (same_regime seen declared)
    then ("the cell declares the '"
        & regime_word declared
        & "' regime and the "
        & archive.backend
        & " archive is in the '"
        & regime_word seen
        & "' one: its root directory holds "
        & show (length archive.root_entries)
        & " entries of which "
        & show (count_pointers archive.root_entries)
        & " point at leaf directories, and it has "
        & show archive.leaf_directories
        & " leaf directories")
      ∷ []
    else []

unfoldable pub is_consistent : Regime → ℕ → Bool
is_consistent root leaf_directories = leaf_directories == 0
is_consistent leaves leaf_directories = ltb 0 leaf_directories

consistency_reasons : ObservedArchive → Option Regime → List String
unfolding regime_word is_consistent
consistency_reasons archive none = []
consistency_reasons archive (some seen) =
    if not (is_consistent seen archive.leaf_directories)
    then ("the "
        & archive.backend
        & " archive's root directory reads as the '"
        & regime_word seen
        & "' regime while it reports "
        & show archive.leaf_directories
        & " leaf directories, so the two observations of one archive disagree")
      ∷ []
    else []

-- The difference of two 32-bit numbers wraps, as in a release build.
sample_reasons : EquivalenceSample → List String
unfolding hex_text
sample_reasons sample =
    (if ltb sample.sampled min_equivalence_sample
      then ("byte equivalence was checked over "
          & show sample.sampled
          & " coordinates and the floor is "
          & show min_equivalence_sample)
        ∷ []
      else [])
    ++ (if not (sample.matched == sample.sampled)
        then (show ((sample.sampled + 2 ^ 32 - sample.matched) % 2 ^ 32)
            & " of "
            & show sample.sampled
            & " sampled coordinates returned different bytes from the two backends (seed "
            & hex_text sample.seed
            & "), so they are not two measurements of one workload")
          ∷ []
        else [])

-- `none` is the panic of `expect`.
verdict : Option Regime → EquivalenceSample → List String → Option Attestation
verdict none sample [] = none
verdict (some seen) sample [] = some (attested seen sample)
verdict observed sample (reason ∷ reasons) = some (refused (reason ∷ reasons))

unfoldable pub attest : Regime → ObservedArchive → EquivalenceSample → Option Attestation
unfolding declared_reasons consistency_reasons sample_reasons verdict
attest declared archive sample = verdict (observed_regime archive) sample (
    (declared_reasons declared archive (observed_regime archive)
      ++ consistency_reasons archive (observed_regime archive))
    ++ sample_reasons sample)

-- ===== src/Samples/Releases.antt =====
-- The theorems about the version keys and the attestation of a cell, at small inputs.
use libviprs_bench.Base.{◌&&◌, ℕ, String, List, [], ◌∷◌, ◌≡◌, refl, Related}
use libviprs_bench.History.{BenchmarkSnapshot}
use libviprs_bench.Attestation.{root, tile, ObservedArchive, EquivalenceSample, attest}
use libviprs_bench.Attestation.Observed.{is_shown, is_sampled, Attests, attest_lem}
use libviprs_bench.Versions.{ordered_version_keys}
use libviprs_bench.Versions.Keys.{has, IsOther, is_key_of, ordered_version_keys_lem}

abbrev released : String → String → String → BenchmarkSnapshot ℕ ℕ
released version git_sha timestamp = record {
  schema_version = 0;
  family = "engines";
  provenance = 0;
  version = version;
  git_sha = git_sha;
  timestamp = timestamp;
  tile_size = 256;
  memory_budget_bytes = 1;
  runs = [];
}

abbrev released_twice : List (BenchmarkSnapshot ℕ ℕ)
released_twice =
    released "0.10.0" "abc" "2026-02"
    ∷ released "0.9.0" "" "2026-01"
    ∷ released "0.10.0" "abc" "2026-03"
    ∷ []

ordered_test : ordered_version_keys released_twice ≡ "0.9.0" ∷ "0.10.0@abc" ∷ []
unfolding ordered_version_keys libviprs_bench.Base.sort libviprs_bench.Base.parse_uint
    libviprs_bench.Base.split_on
ordered_test = refl

ordered_version_keys_lem_example :
    Related IsOther (ordered_version_keys released_twice)
    × ((key : String)
        → has key (ordered_version_keys released_twice) ≡ is_key_of key released_twice)
ordered_version_keys_lem_example = ordered_version_keys_lem released_twice

abbrev flat_archive : ObservedArchive
flat_archive = record {
  backend = "pmtiles";
  root_entries = tile ∷ tile ∷ [];
  leaf_directories = 0;
  tiles = 2;
}

abbrev full_sample : EquivalenceSample
full_sample = record { seed = 7; sampled = 64; matched = 64 }

attest_lem_example :
    Attests
      (is_shown root flat_archive && is_sampled full_sample)
      root
      full_sample
      (attest root flat_archive full_sample)
attest_lem_example = attest_lem root flat_archive full_sample

-- ===== src/History.antt =====
-- src/lib.rs, the benchmark history: `migrate_snapshot`, `normalize_run_label` and `push_snapshot`.
-- What a run measured, and the provenance of a snapshot, are types of their own here.
pub mod Families
pub mod Migrated
use libviprs_bench.Base.{
  ℕ, Bool, true, false, not, String, List, [], ◌∷◌, ◌++◌, map, Option, none, some, str_eq, ltb,
  ◌==◌, if◌then◌else◌, ◌&◌, join, trim, is_whitespace, Result, ok, err, ◌≡◌, refl,
}
use Prim.Native.Char.{Char, code}

pub record RunMetrics (R : Type 0) : Type 0 where
  pub label : String
  pub measured : R

pub record BenchmarkSnapshot (R P : Type 0) : Type 0 where
  pub schema_version : ℕ
  pub family : String
  pub provenance : P
  pub version : String
  pub git_sha : String
  pub timestamp : String
  pub tile_size : ℕ
  pub memory_budget_bytes : ℕ
  pub runs : List (RunMetrics R)

abbrev pub current_schema_version : ℕ
current_schema_version = 3

abbrev pub legacy_snapshot_family : String
legacy_snapshot_family = "vips"

pub contains_space : String → Bool
contains_space String.[] = false
contains_space (String.◌∷◌ c s) = if code c == b' ' then true else contains_space s

-- The text between each two characters of white space.
prepend : Char → List String → List String
prepend c [] = String.◌∷◌ c "" ∷ []
prepend c (s ∷ rest) = String.◌∷◌ c s ∷ rest

fields : String → List String
unfolding is_whitespace prepend
fields String.[] = "" ∷ []
fields (String.◌∷◌ c s) =
    let rest = fields s in if is_whitespace (code c) then "" ∷ rest else prepend c rest

non_empty : List String → List String
non_empty [] = []
non_empty (s ∷ rest) = let kept = non_empty rest in if str_eq s "" then kept else s ∷ kept

-- `str::split_whitespace`
pub split_whitespace : String → List String
unfolding fields non_empty
split_whitespace s = non_empty (fields s)

unfoldable pub normalize_run_label : String → String
unfolding contains_space split_whitespace
normalize_run_label label =
    if not (contains_space label) then label else join "_" (split_whitespace label)

normalize_test : normalize_run_label "1024x1024 c0  monolithic" ≡ "1024x1024_c0_monolithic"
unfolding normalize_run_label
normalize_test = refl

abbrev relabel : {R : Type 0} → RunMetrics R → RunMetrics R
relabel run = record run { label = normalize_run_label run.label }

abbrev pub is_blank : String → Bool
is_blank family = str_eq (trim family) ""

module _ {R P : Type 0} where
  unfoldable pub migrate_snapshot : BenchmarkSnapshot R P → BenchmarkSnapshot R P
  migrate_snapshot snap = record snap {
    runs = map relabel snap.runs;
    family = if is_blank snap.family then legacy_snapshot_family else snap.family;
    schema_version =
        if ltb snap.schema_version current_schema_version
        then current_schema_version
        else snap.schema_version;
  }

  -- `history.iter().find(|s| s.family != snapshot.family)`
  abbrev pub find_other : String → List (BenchmarkSnapshot R P) → Option (BenchmarkSnapshot R P)
  find_other family [] = none
  find_other family (s ∷ history) =
      if not (str_eq s.family family) then some s else find_other family history

  abbrev pub push_unless :
      Option (BenchmarkSnapshot R P)
      → List (BenchmarkSnapshot R P)
      → BenchmarkSnapshot R P
      → Result String (List (BenchmarkSnapshot R P))
  push_unless none history snapshot = ok (history ++ snapshot ∷ [])
  push_unless (some existing) history snapshot = err (
      "refusing to append a `" & snapshot.family & "` snapshot to a history of `" & existing.family
      & "` snapshots: the two families measure different engine sets, so one trend line across "
      & "both is not a trend. Each family writes under report/<family>/, so point this run at its "
      & "own history file.")

  -- The history with the snapshot appended; on an error the history stays what it was.
  unfoldable pub push_snapshot :
      List (BenchmarkSnapshot R P)
      → BenchmarkSnapshot R P
      → Result String (List (BenchmarkSnapshot R P))
  push_snapshot history snapshot =
      if is_blank snapshot.family
      then err (
          "refusing to append a snapshot that names no family: an unlabelled snapshot merges into "
          & "any family's history and invents a trend across two different engine sets")
      else push_unless (find_other snapshot.family history) history snapshot

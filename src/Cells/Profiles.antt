-- ===== src/Cells/Profiles.antt =====
-- src/storage/cells.rs, `Profile`: the cells that a sweep walks, its scenarios and its sample cap.
use libviprs_bench.Base.{
  ℕ, Bool, true, false, not, String, List, [], ◌∷◌, ◌++◌, ◌≡◌, refl, Option, none, some, ◌%◌, ◌^◌,
  if◌then◌else◌, str_eq,
}
use text.Mathlib.Text.{starts_with}
use libviprs_bench.Planner.{Planner}
use libviprs_bench.Replicate.{schedule}
use libviprs_bench.Cells.{Cell, cell, planned_tiles}
use libviprs_bench.Cells.Sources.{Source, gradient, noise}

pub data Profile : Type 0 where
  ci full xl : Profile

unfoldable pub label : Profile → String
label ci = "ci"
label full = "full"
label xl = "xl"

unfoldable pub parse : String → Option Profile
parse s =
    if str_eq s "ci"
    then some ci
    else if str_eq s "full"
    then some full
    else if str_eq s "xl"
    then some xl
    else none

abbrev or_ci : Option Profile → Profile
or_ci none = ci
or_ci (some p) = p

-- `from_env`, given what `LIBVIPRS_BENCH_PROFILE` holds
unfoldable pub from_env : Option String → Profile
unfolding parse
from_env none = ci
from_env (some v) = or_ci (parse v)

unfoldable pub read_samples : Profile → ℕ
read_samples ci = 512
read_samples full = 20_000
read_samples xl = 20_000

unfoldable pub publishable : Profile → Bool
publishable ci = false
publishable _ = true

-- `scenario_names_for`
keep_names : Profile → List String → List String
keep_names profile [] = []
keep_names ci (name ∷ names) =
    let rest = keep_names ci names in
    if not (starts_with name "read_concurrent@") then name ∷ rest else rest
keep_names p (name ∷ names) = name ∷ keep_names p names

unfoldable pub scenario_names : Profile → List String
unfolding keep_names
scenario_names profile = keep_names profile (
    "generate" ∷ "generate_ingest" ∷ "generate_finalize" ∷ "open" ∷ "first_lookup" ∷ "decode_root"
    ∷ "read_plan_order" ∷ "read_tileid_order" ∷ "read_random" ∷ "read_concurrent@1"
    ∷ "read_concurrent@2" ∷ "read_concurrent@4" ∷ "read_concurrent@8" ∷ "requests" ∷ [])

abbrev or_zero : Option ℕ → ℕ
or_zero none = 0
or_zero (some n) = n

module _ (planner : Planner) where
  -- `at`: a cell with the planner's count for its declared count
  at : ℕ → ℕ → ℕ → Source → Cell
  unfolding planned_tiles
  at width height tile_px source =
      let c = cell width height tile_px source 0 in
      record c { declared_tiles = or_zero (planned_tiles planner c) % 2 ^ 32 }

  unfoldable pub brink_cell : Source → Cell
  unfolding at
  brink_cell source = at 4096 6256 46 source

  full_cells : List Cell
  unfolding brink_cell
  full_cells =
      cell 8192 8192 256 gradient 1373
      ∷ brink_cell gradient
      ∷ cell 8192 8192 64 gradient 21851
      ∷ cell 8192 8192 64 noise 21851
      ∷ brink_cell noise
      ∷ []

  unfoldable pub measured_cells : Profile → List Cell
  unfolding full_cells
  measured_cells ci = []
  measured_cells full = full_cells
  measured_cells xl = full_cells ++ cell 16384 16384 256 gradient 5469 ∷ []

  abbrev pub control : Cell
  control = cell 2048 2048 256 gradient 93

  unfoldable pub cells : Profile → List Cell
  unfolding measured_cells schedule
  cells ci = cell 2048 2048 256 gradient 93 ∷ []
  cells full = schedule control (measured_cells full)
  cells xl = schedule control (measured_cells xl)

pub parse-label : (p : Profile) → parse (label p) ≡ some p
unfolding parse label
parse-label ci = refl
parse-label full = refl
parse-label xl = refl

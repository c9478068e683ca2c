-- ===== src/Planner.antt =====
-- The pyramid planner of the libviprs crate, as the benchmarks call it: a plan for a canvas, a tile
-- size and the XYZ layout, or a refusal. A plan is read for its levels only.
use libviprs_bench.Base.{ℕ, List, Option}

pub record Level : Type 0 where
  pub level : ℕ
  pub cols : ℕ
  pub rows : ℕ

pub record Coord : Type 0 where
  pub level : ℕ
  pub col : ℕ
  pub row : ℕ

abbrev pub Plan : Type 0
Plan = List Level

-- `PyramidPlanner::new(width, height, tile_px, 0, Layout::Xyz).ok()?.plan()`
abbrev pub Planner : Type 0
Planner = ℕ → ℕ → ℕ → Option Plan

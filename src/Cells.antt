-- ===== src/Cells.antt =====
-- src/storage/cells.rs: the cells of a storage sweep, the text in which a parent process hands a
-- cell to its child, and the coordinates of a plan.
pub mod Backends
pub mod Sources
pub mod Profiles
pub mod Spec
pub mod Coordinates
use libviprs_bench.Base.{
  ℕ, zero, suc, ◌+◌, ◌%◌, ◌^◌, ◌-◌, Bool, String, List, [], ◌∷◌, ◌++◌, Option, none, some, ◌==◌,
  if◌then◌else◌, show, parse_uint, split_once, ◌&◌, length, Result, ok, err,
}
use libviprs_bench.Planner.{Planner, Plan, Level, Coord}
use Sources
use Sources.{Source}

pub record Cell : Type 0 where
  pub width : ℕ
  pub height : ℕ
  pub tile_px : ℕ
  pub source : Source
  pub declared_tiles : ℕ

-- `Cell::new`
abbrev pub cell : ℕ → ℕ → ℕ → Source → ℕ → Cell
cell width height tile_px source declared_tiles = record {
  width = width;
  height = height;
  tile_px = tile_px;
  source = source;
  declared_tiles = declared_tiles;
}

unfoldable pub spec : Cell → String
unfolding show Sources.as_str
spec c = show c.width & "x" & show c.height & "@" & show c.tile_px & "+" & Sources.as_str c.source

-- The innermost loop of `coordinates`: the columns from `col` on, `n` of them.
cols_from : ℕ → ℕ → ℕ → ℕ → List Coord
cols_from level row col zero = []
cols_from level row col (suc n) =
    record { level = level; col = col; row = row } ∷ cols_from level row (col + 1) n

rows_from : ℕ → ℕ → ℕ → ℕ → List Coord
unfolding cols_from
rows_from level cols row zero = []
rows_from level cols row (suc n) = cols_from level row 0 cols ++ rows_from level cols (row + 1) n

unfoldable pub coordinates : Plan → List Coord
unfolding rows_from
coordinates [] = []
coordinates (l ∷ levels) = rows_from l.level l.cols 0 l.rows ++ coordinates levels

infixl 5 ◌>>=◌
abbrev ◌>>=◌ : {A B : Type 0} → Option A → (A → Option B) → Option B
none >>= f = none
some a >>= f = f a

abbrev pub u32_max : ℕ
u32_max = 2 ^ 32 - 1

module _ (planner : Planner) where
  unfoldable pub plan : Cell → Option Plan
  plan c = planner c.width c.height c.tile_px

  unfoldable pub planned_tiles : Cell → Option ℕ
  unfolding plan coordinates
  planned_tiles c = do p ← plan c; some (length (coordinates p))

  -- `Cell::parse`; the count of the plan is cast to `u32`.
  unfoldable pub parse : String → Option Cell
  unfolding split_once parse_uint planned_tiles
  parse text = do
    (canvas, source) ← split_once b'+' text
    (dims, tile) ← split_once b'@' canvas
    (w, h) ← split_once b'x' dims
    width ← parse_uint u32_max w
    height ← parse_uint u32_max h
    tile_px ← parse_uint u32_max tile
    src ← Sources.parse source
    let c = cell width height tile_px src 0
    tiles ← planned_tiles c
    some (record c { declared_tiles = tiles % 2 ^ 32 })

  -- The refusal of a tile size that is a whole number of the source's periods.
  unfoldable pub source_suits_the_cell : Cell → Result String (Unit {0})
  unfolding spec Sources.collapses_at
  source_suits_the_cell c = elim (Sources.period_px c.source) [
    | none ↦ ok tt
    | some period ↦
        if Sources.collapses_at c.source c.tile_px
        then err (
            spec c
            & " fills a "
            & show c.tile_px
            & " pixel tile from a source whose period is "
            & show period
            & " pixels on both axes, so every tile of a level is the same bytes and the "
            & "writer's run-length encoding collapses the level to one entry")
        else ok tt
  ]

-- `publishable`: the cells whose source may be published
unfoldable pub publishable : List Cell → List Cell
unfolding Sources.publishable
publishable [] = []
publishable (c ∷ cells) =
    let rest = publishable cells in if Sources.publishable c.source then c ∷ rest else rest

-- ===== src/Cells/Sources.antt =====
-- src/storage/cells.rs, `Source`: what the raster under a cell is, its period, and the tile sizes
-- at which a level of it collapses.
use libviprs_bench.Base.{
  ℕ, ◌*◌, ◌%◌, Bool, true, false, String, ◌≡◌, refl, Option, none, some, ◌==◌, if◌then◌else◌,
  str_eq,
}

pub data Source : Type 0 where
  gradient noise flat periodic_gradient : Source

unfoldable pub as_str : Source → String
as_str gradient = "gradient"
as_str noise = "noise"
as_str flat = "flat"
as_str periodic_gradient = "periodic-gradient"

unfoldable pub parse : String → Option Source
parse s =
    if str_eq s "gradient"
    then some gradient
    else if str_eq s "noise"
    then some noise
    else if str_eq s "flat"
    then some flat
    else if str_eq s "periodic-gradient"
    then some periodic_gradient
    else none

unfoldable pub publishable : Source → Bool
publishable flat = false
publishable periodic_gradient = false
publishable _ = true

unfoldable pub period_px : Source → Option ℕ
period_px gradient = some (251 * 241 * 239)
period_px periodic_gradient = some 256
period_px flat = some 1
period_px noise = none

-- `tile_px.is_multiple_of(period)`, no period being 0
unfoldable pub collapses_at : Source → ℕ → Bool
unfolding period_px
collapses_at source tile_px = elim (period_px source) [
  | none ↦ false
  | some period ↦ tile_px % period == 0
]

pub parse-as_str : (s : Source) → parse (as_str s) ≡ some s
unfolding parse as_str
parse-as_str gradient = refl
parse-as_str noise = refl
parse-as_str flat = refl
parse-as_str periodic_gradient = refl

-- ===== src/Cells/Spec.antt =====
-- src/storage/cells.rs: lemmas on `Cell::spec` and `Cell::parse`, between a parent and its child.
use text.Mathlib.TextLemmas.{append_assoc}
use libviprs_bench.Base.{
  ℕ, ◌≤◌, ◌%◌, ◌^◌, String, ◌≡◌, refl, ◌∙◌, some, arith, show, parse_uint-show, split_once,
  split_once-at, Avoids-show, Avoids-append, ◌&◌,
}
use libviprs_bench.Planner.{Planner}
use libviprs_bench.Cells.{Cell, cell, spec, planned_tiles, parse, u32_max}
use libviprs_bench.Cells.Sources

-- The numbers of the cell are those of their type, `u32`.
pub record Fits (c : Cell) : Type 0 where
  pub width : c.width ≤ u32_max
  pub height : c.height ≤ u32_max
  pub tile_px : c.tile_px ≤ u32_max

split_x : (w h : ℕ) → split_once b'x' (show w & "x" & show h) ≡ some (show w, show h)
split_x w h = split_once-at "x" (show w) (show h) (Avoids-show "x" w (omega arith))

split_at :
    (w h t : ℕ)
    → split_once b'@' ((show w & "x" & show h) & "@" & show t)
      ≡ some (show w & "x" & show h, show t)
split_at w h t = split_once-at "@" (show w & "x" & show h) (show t) (
    Avoids-append "@" (show w) ("x" & show h) (Avoids-show "@" w (omega arith))
      (Avoids-append "@" "x" (show h) (omega arith) (Avoids-show "@" h (omega arith))))

split_plus :
    (w h t : ℕ) (source : String)
    → split_once b'+' (((show w & "x" & show h) & "@" & show t) & "+" & source)
      ≡ some ((show w & "x" & show h) & "@" & show t, source)
split_plus w h t source = split_once-at "+" ((show w & "x" & show h) & "@" & show t) source (
    Avoids-append "+" (show w & "x" & show h) ("@" & show t)
      (Avoids-append "+" (show w) ("x" & show h) (Avoids-show "+" w (omega arith))
        (Avoids-append "+" "x" (show h) (omega arith) (Avoids-show "+" h (omega arith))))
      (Avoids-append "+" "@" (show t) (omega arith) (Avoids-show "+" t (omega arith))))

spec_lem :
    (c : Cell)
    → spec c
      ≡ ((show c.width & "x" & show c.height) & "@" & show c.tile_px)
        & "+"
        & Sources.as_str c.source
unfolding spec
spec_lem c = simp append_assoc

planned_of_numbers :
    (planner : Planner) (c : Cell)
    → planned_tiles planner (cell c.width c.height c.tile_px c.source 0) ≡ planned_tiles planner c
unfolding planned_tiles
planned_of_numbers planner c = refl

-- Where the numbers of a cell fit their type and the planner plans the cell, the text of the cell
-- parses to the cell itself, with the plan's count, cast to `u32`, for its declared count.
pub parse-spec :
    (planner : Planner) (c : Cell) {tiles : ℕ}
    → Fits c
    → planned_tiles planner c ≡ some tiles
    → parse planner (spec c) ≡ some (record c { declared_tiles = tiles % 2 ^ 32 })
unfolding parse
parse-spec planner c fits planned =
    rw
      (
        spec_lem,
        split_plus,
        split_at,
        split_x,
        parse_uint-show u32_max c.width fits.width,
        parse_uint-show u32_max c.height fits.height,
        parse_uint-show u32_max c.tile_px fits.tile_px,
        Sources.parse-as_str c.source,
      )
      (rw (planned_of_numbers planner c ∙ planned))

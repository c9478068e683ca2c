-- ===== src/Scenarios/TileId.antt =====
-- src/storage/scenarios/plan_order.rs and tileid_order.rs: the first coordinates of a plan in the
-- order of the plan and in the order of an archive's tile ids, and the tests that tell the two
-- orders apart. `zxy` is `zxy_to_tileid` of the libviprs crate, `none` where it refuses.
pub mod Order
pub mod Monotone
pub mod Moved
use libviprs_bench.Base.{
  ℕ, zero, suc, ◌+◌, Bool, true, false, not, ◌&&◌, ◌||◌, List, [], ◌∷◌, map, Option, none, some,
  take, sort, if◌then◌else◌, ltb, leb, ◌==◌,
}
use libviprs_bench.Json.{◌>>?◌}
use libviprs_bench.Json.Keys.{is_some}
use libviprs_bench.Planner.{Plan, Coord}
use libviprs_bench.Cells

unfoldable pub plan_order : Plan → ℕ → List Coord
plan_order plan n = take n (Cells.coordinates plan)

pub record Inversion : Type 0 where
  pub index : ℕ
  pub before : ℕ
  pub after : ℕ

-- The loop over the neighbours of the ids; `index` is that of the second.
unfoldable pub inversion_from : ℕ → List (Option ℕ) → Option Inversion
inversion_from index [] = none
inversion_from index (first ∷ []) = none
inversion_from index (none ∷ second ∷ ids) = inversion_from (index + 1) (second ∷ ids)
inversion_from index (some before ∷ none ∷ ids) = inversion_from (index + 1) (none ∷ ids)
inversion_from index (some before ∷ some after ∷ ids) =
    let later = inversion_from (index + 1) (some after ∷ ids) in
    if leb after before
    then some (record { index = index; before = before; after = after })
    else later

unfoldable pub same_coord : Coord → Coord → Bool
same_coord a b = a.level == b.level && a.col == b.col && a.row == b.row

positions_from : ℕ → List Coord → List Coord → List ℕ
unfolding same_coord
positions_from index [] ys = []
positions_from index (x ∷ xs) [] = []
positions_from index (x ∷ xs) (y ∷ ys) =
    let rest = positions_from (index + 1) xs ys in
    if not (same_coord x y) then index ∷ rest else rest

unfoldable pub positions_the_sort_moves : List Coord → List Coord → List ℕ
unfolding positions_from
positions_the_sort_moves plan_order tileid_order = positions_from 0 plan_order tileid_order

-- The order of the triples of level, column and row.
triple_leb : Coord → Coord → Bool
triple_leb a b =
    if ltb a.level b.level
    then true
    else if ltb b.level a.level
    then false
    else if ltb a.col b.col
    then true
    else if ltb b.col a.col
    then false
    else leb a.row b.row

same_coords : List Coord → List Coord → Bool
unfolding same_coord
same_coords [] [] = true
same_coords [] (y ∷ ys) = false
same_coords (x ∷ xs) [] = false
same_coords (x ∷ xs) (y ∷ ys) = same_coord x y && same_coords xs ys

unfoldable pub same_multiset : List Coord → List Coord → Bool
unfolding same_coords triple_leb sort
same_multiset plan_order tileid_order =
    same_coords (sort triple_leb plan_order) (sort triple_leb tileid_order)

pub record Probe : Type 0 where
  pub index : ℕ
  pub in_plan_order : Coord
  pub in_plan_order_tile_id : Option ℕ
  pub in_tileid_order : Coord
  pub in_tileid_order_tile_id : Option ℕ

pub coord_at : List Coord → ℕ → Option Coord
coord_at [] i = none
coord_at (c ∷ cs) zero = some c
coord_at (c ∷ cs) (suc i) = coord_at cs i

first_of : List ℕ → Option ℕ
first_of [] = none
first_of (i ∷ is) = some i

-- The sort's key: an addressable coordinate by its id, before every other.
pub key_leb : Option ℕ → Option ℕ → Bool
key_leb none none = true
key_leb none (some j) = false
key_leb (some i) none = true
key_leb (some i) (some j) = leb i j

module _ (zxy : ℕ → ℕ → ℕ → Option ℕ) where
  unfoldable pub tile_id : Coord → Option ℕ
  tile_id coord = if ltb 255 coord.level then none else zxy coord.level coord.col coord.row

  pub tile_leb : Coord → Coord → Bool
  unfolding key_leb
  tile_leb a b = key_leb (tile_id a) (tile_id b)

  unfoldable pub coordinates : Plan → ℕ → List Coord
  unfolding plan_order tile_leb sort
  coordinates plan n = sort tile_leb (plan_order plan n)

  unfoldable pub tile_ids : List Coord → List (Option ℕ)
  unfolding tile_id
  tile_ids coords = map tile_id coords

  unfoldable pub first_inversion : List Coord → Option Inversion
  unfolding inversion_from tile_ids
  first_inversion coords = inversion_from 1 (tile_ids coords)

  unfoldable pub is_monotone : List Coord → Bool
  unfolding first_inversion
  is_monotone coords = not (is_some (first_inversion coords))

  -- An index into either order that is out of range, which the code refuses, is `none`.
  unfoldable pub probe : List Coord → List Coord → Option Probe
  unfolding positions_the_sort_moves first_of coord_at tile_id
  probe plan tileid = first_of (positions_the_sort_moves plan tileid) >>? λ index.
      coord_at plan index >>? λ planned. coord_at tileid index >>? λ sorted. some (record {
        index = index;
        in_plan_order = planned;
        in_plan_order_tile_id = tile_id planned;
        in_tileid_order = sorted;
        in_tileid_order_tile_id = tile_id sorted;
      })

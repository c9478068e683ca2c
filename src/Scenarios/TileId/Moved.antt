-- ===== src/Scenarios/TileId/Moved.antt =====
-- src/storage/scenarios/tileid_order.rs: the probe that tells the two orders apart.
use mathlib.Core.Path.{ap₂}
use libviprs_bench.Base.{
  ℕ, suc, ◌+◌, true, false, List, [], ◌∷◌, Option, none, some, ◌≡◌, refl, ap, ◌∙◌, ◌⊎◌, inl, inr,
  arith, length, take, Bool-cases,
}
use libviprs_bench.Planner.{Coord}
use libviprs_bench.Scenarios.TileId.{
  same_coord, positions_from, positions_the_sort_moves, coord_at, first_of, Probe, probe, tile_id,
}

same_coord-true : (a b : Coord) → same_coord a b ≡ true → a ≡ b
unfolding same_coord
same_coord-true a b h =
    let l : a.level ≡ b.level = ground arith in
    let c : a.col ≡ b.col = ground arith in let r : a.row ≡ b.row = ground arith in cc

-- The lists are the same, or they are up to an index at which both have another coordinate.
abbrev Differ : ℕ → List Coord → List Coord → Type 0
Differ i xs ys =
    ((positions_from i xs ys ≡ []) × (xs ≡ ys))
    ⊎ ((k : ℕ) × (a : Coord) × (b : Coord) × (rest : List ℕ) × (positions_from i xs ys
          ≡ (i + k) ∷ rest)
        × (take k xs ≡ take k ys)
        × (coord_at xs k ≡ some a)
        × (coord_at ys k ≡ some b)
        × (same_coord a b ≡ false))

differ : (i : ℕ) (xs ys : List Coord) → length xs ≡ length ys → Differ i xs ys
unfolding positions_from coord_at
differ i [] [] h = inl (refl, refl)
differ i [] (y ∷ ys) h = absurd (omega arith)
differ i (x ∷ xs) [] h = absurd (omega arith)
differ i (x ∷ xs) (y ∷ ys) h = elim (Bool-cases (same_coord x y)) [
  | inr other ↦ rw other (
      inr (
        0,
        x,
        y,
        positions_from (i + 1) xs ys,
        ap (λ n. n ∷ positions_from (i + 1) xs ys) (omega arith),
        refl,
        refl,
        refl,
        other,
      ))
  | inl same ↦ rw same (elim (differ (i + 1) xs ys (omega arith)) [
    | inl (none_moved, rest) ↦
        inl (none_moved, ap₂ (λ c cs. c ∷ cs) (same_coord-true x y same) rest)
    | inr (k, a, b, rest, moved, before, left, right, other) ↦ inr (
      suc k,
      a,
      b,
      rest,
      moved ∙ ap (λ n. n ∷ rest) (omega arith),
      ap₂ (λ c cs. c ∷ cs) (same_coord-true x y same) before,
      left,
      right,
      other,
    )
  ])
]

-- Of two walks of the same length, the probe is none and the walks are equal, or it holds the first
-- index at which they differ and the two different coordinates that stand there.
pub probe_lem :
    (zxy : ℕ → ℕ → ℕ → Option ℕ) (xs ys : List Coord)
    → length xs ≡ length ys
    → ((probe zxy xs ys ≡ none) × (xs ≡ ys))
      ⊎ ((p : Probe) × (probe zxy xs ys ≡ some p)
          × (take p.index xs ≡ take p.index ys)
          × (coord_at xs p.index ≡ some p.in_plan_order)
          × (coord_at ys p.index ≡ some p.in_tileid_order)
          × (same_coord p.in_plan_order p.in_tileid_order ≡ false))
unfolding probe positions_the_sort_moves first_of
probe_lem zxy xs ys h = elim (differ 0 xs ys h) [
  | inl (none_moved, same) ↦ inl (rw none_moved refl, same)
  | inr (k, a, b, rest, moved, before, left, right, other) ↦
      let at_k : positions_from 0 xs ys ≡ k ∷ rest = moved ∙ ap (λ n. n ∷ rest) (omega arith) in
      inr (
        record {
          index = k;
          in_plan_order = a;
          in_plan_order_tile_id = tile_id zxy a;
          in_tileid_order = b;
          in_tileid_order_tile_id = tile_id zxy b;
        },
        rw (at_k, left, right) refl,
        before,
        left,
        right,
        other,
      )
]

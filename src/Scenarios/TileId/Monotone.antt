-- ===== src/Scenarios/TileId/Monotone.antt =====
-- src/storage/scenarios/tileid_order.rs: when the walk by tile id has no inversion.
use libviprs_bench.Base.{
  ℕ, ◌+◌, Bool, true, false, List, [], ◌∷◌, map, Option, none, some, ◌≡◌, refl, arith, Related,
  Related-sort, IsOrdered, ◌==◌,
}
use libviprs_bench.Planner.{Plan, Coord}
use libviprs_bench.Scenarios.TileId.{
  plan_order, tile_id, key_leb, tile_leb, coordinates, inversion_from, tile_ids, first_inversion,
  is_monotone,
}
use libviprs_bench.Scenarios.TileId.Order.{coordinates-IsOrdered}

-- The two coordinates have the same tile id.
abbrev pub shares_id : Option ℕ → Option ℕ → Bool
shares_id (some i) (some j) = i == j
shares_id _ _ = false

module _ (zxy : ℕ → ℕ → ℕ → Option ℕ) where
  abbrev pub IsApart : Coord → Coord → Type 0
  IsApart a b = shares_id (tile_id zxy a) (tile_id zxy b) ≡ false

  IsApart_sym : (a b : Option ℕ) → shares_id a b ≡ false → shares_id b a ≡ false
  IsApart_sym none none h = refl
  IsApart_sym none (some j) h = refl
  IsApart_sym (some i) none h = refl
  IsApart_sym (some i) (some j) h = ground arith

  no_inversion-cons :
      (index : ℕ) (a b : Option ℕ) (ids : List (Option ℕ))
      → key_leb a b ≡ true
      → shares_id a b ≡ false
      → inversion_from (index + 1) (b ∷ ids) ≡ none
      → inversion_from index (a ∷ b ∷ ids) ≡ none
  unfolding inversion_from key_leb
  no_inversion-cons index none b ids h k later = later
  no_inversion-cons index (some i) none ids h k later = later
  no_inversion-cons index (some i) (some j) ids h k later = ground (arith, later)

  no_inversion_from :
      (index : ℕ) (coords : List Coord)
      → IsOrdered (tile_leb zxy) coords
      → Related IsApart coords
      → inversion_from index (tile_ids zxy coords) ≡ none
  unfolding inversion_from tile_ids tile_leb
  no_inversion_from index [] h r = refl
  no_inversion_from index (a ∷ []) h r = refl
  no_inversion_from index (a ∷ b ∷ coords) ((p, _), h) ((q, _), r) =
      no_inversion-cons index (tile_id zxy a) (tile_id zxy b) (map (tile_id zxy) coords) p q
        (no_inversion_from (index + 1) (b ∷ coords) h r)

  first_inversion-none :
      (coords : List Coord)
      → IsOrdered (tile_leb zxy) coords
      → Related IsApart coords
      → first_inversion zxy coords ≡ none
  unfolding first_inversion
  first_inversion-none coords h r = no_inversion_from 1 coords h r

  coordinates-Related :
      (plan : Plan) (n : ℕ)
      → Related IsApart (plan_order plan n)
      → Related IsApart (coordinates zxy plan n)
  unfolding coordinates
  coordinates-Related plan n apart =
      Related-sort (tile_leb zxy) IsApart (λ a b. IsApart_sym (tile_id zxy a) (tile_id zxy b))
        (plan_order plan n) apart

  -- Where no two coordinates of the walk by plan share a tile id, the walk by tile id is strictly
  -- ascending.
  pub is_monotone-coordinates :
      (plan : Plan) (n : ℕ)
      → Related IsApart (plan_order plan n)
      → is_monotone zxy (coordinates zxy plan n) ≡ true
  unfolding is_monotone
  is_monotone-coordinates plan n apart =
      rw
        (first_inversion-none (coordinates zxy plan n) (coordinates-IsOrdered zxy plan n)
          (coordinates-Related plan n apart))
        refl

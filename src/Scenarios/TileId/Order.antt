-- ===== src/Scenarios/TileId/Order.antt =====
-- src/storage/scenarios/tileid_order.rs: what the sort by tile id does.
use mathlib.Core.List.{Perm}
use libviprs_bench.Base.{
  ℕ, ◌≤◌, Bool, true, false, not, Option, none, some, ◌≡◌, refl, arith, keep, IsOrdered, sort-perm,
  List, [], ◌∷◌, All, Related, Precedes, sort-IsOrdered, keep-sort,
}
use libviprs_bench.Json.Keys.{is_some}
use libviprs_bench.Planner.{Plan, Coord}
use libviprs_bench.Scenarios.TileId.{plan_order, tile_id, key_leb, tile_leb, coordinates}

pub key_leb_total : (a b : Option ℕ) → key_leb a b ≡ false → key_leb b a ≡ true
unfolding key_leb
key_leb_total none none h = refl
key_leb_total none (some j) h = refl
key_leb_total (some i) none h = cc
key_leb_total (some i) (some j) h = ground arith

key_leb_trans : (a b c : Option ℕ) → key_leb a b ≡ true → key_leb b c ≡ true → key_leb a c ≡ true
unfolding key_leb
key_leb_trans none none none h k = refl
key_leb_trans none none (some z) h k = cc
key_leb_trans none (some y) c h k = cc
key_leb_trans (some x) b none h k = refl
key_leb_trans (some x) none (some z) h k = cc
key_leb_trans (some x) (some y) (some z) h k = ground arith

none_leb : (a b : Option ℕ) → is_some a ≡ false → is_some b ≡ false → key_leb a b ≡ true
unfolding key_leb
none_leb none none h k = refl
none_leb none (some y) h k = cc
none_leb (some x) b h k = cc

-- Ids ascend, and one that is missing stands after every id.
abbrev pub Ascends : Option ℕ → Option ℕ → Type 0
Ascends (some i) (some j) = i ≤ j
Ascends (some i) none = Unit
Ascends none (some j) = ⊥
Ascends none none = Unit

key_leb-Ascends : (a b : Option ℕ) → key_leb a b ≡ true → Ascends a b
unfolding key_leb
key_leb-Ascends none none h = tt
key_leb-Ascends none (some y) h = cc
key_leb-Ascends (some x) none h = tt
key_leb-Ascends (some x) (some y) h = ground arith

module _ (zxy : ℕ → ℕ → ℕ → Option ℕ) where
  -- The coordinate has no tile id.
  abbrev pub is_unaddressable : Coord → Bool
  is_unaddressable c = not (is_some (tile_id zxy c))

  -- The first has an id where the second has one, and then its id is no greater.
  abbrev pub InOrder : Coord → Coord → Type 0
  InOrder a b = Ascends (tile_id zxy a) (tile_id zxy b)

  Precedes-InOrder :
      (c : Coord) (cs : List Coord) → Precedes (tile_leb zxy) c cs → All (InOrder c) cs
  unfolding tile_leb
  Precedes-InOrder c [] h = tt
  Precedes-InOrder c (d ∷ cs) (p, h) =
      (key_leb-Ascends (tile_id zxy c) (tile_id zxy d) p, Precedes-InOrder c cs h)

  ordered-InOrder : (cs : List Coord) → IsOrdered (tile_leb zxy) cs → Related InOrder cs
  ordered-InOrder [] h = tt
  ordered-InOrder (c ∷ cs) (p, h) = (Precedes-InOrder c cs p, ordered-InOrder cs h)

  pub coordinates-IsOrdered :
      (plan : Plan) (n : ℕ) → IsOrdered (tile_leb zxy) (coordinates zxy plan n)
  unfolding coordinates tile_leb
  coordinates-IsOrdered plan n =
      sort-IsOrdered (tile_leb zxy) (λ a b. key_leb_total (tile_id zxy a) (tile_id zxy b))
        (λ a b c. key_leb_trans (tile_id zxy a) (tile_id zxy b) (tile_id zxy c)) (plan_order plan n)

  -- The walk by tile id is a permutation of the walk by plan; where a coordinate of it has an id,
  -- every earlier one has an id that is no greater, so the ids ascend and the coordinates without an
  -- id are last; and those are left in the order of the plan.
  pub coordinates-perm :
      (plan : Plan) (n : ℕ)
      → Perm (coordinates zxy plan n) (plan_order plan n)
        × Related InOrder (coordinates zxy plan n)
        × (keep is_unaddressable (coordinates zxy plan n)
            ≡ keep is_unaddressable (plan_order plan n))
  unfolding coordinates tile_leb
  coordinates-perm plan n = (
    sort-perm (tile_leb zxy) (plan_order plan n),
    ordered-InOrder (coordinates zxy plan n) (coordinates-IsOrdered plan n),
    keep-sort (tile_leb zxy) is_unaddressable (plan_order plan n)
        (λ a b h k. none_leb (tile_id zxy a) (tile_id zxy b) (ground arith) (ground arith)),
  )

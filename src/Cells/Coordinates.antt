-- ===== src/Cells/Coordinates.antt =====
-- src/storage/cells.rs: lemmas on `coordinates` against the levels of a plan.
use libviprs_bench.Base.{
  ℕ, zero, suc, ◌+◌, ◌*◌, ◌<◌, ◌≤◌, List, [], ◌∷◌, ◌++◌, ◌≡◌, refl, ap, ◌∙◌, ◌⊎◌, inl, inr, ◌↔◌,
  arith, length, length-append,
}
use libviprs_bench.Planner.{Plan, Coord}
use libviprs_bench.Cells.{cols_from, rows_from, coordinates}

-- The tiles of a plan: each level has `rows * cols`.
unfoldable pub tile_count : Plan → ℕ
tile_count [] = 0
tile_count (l ∷ levels) = l.rows * l.cols + tile_count levels

length-cols_from : (level row col n : ℕ) → length (cols_from level row col n) ≡ n
unfolding cols_from
length-cols_from level row col zero = refl
length-cols_from level row col (suc n) = ap suc (length-cols_from level row (col + 1) n)

length-rows_from : (level cols row n : ℕ) → length (rows_from level cols row n) ≡ n * cols
unfolding rows_from
length-rows_from level cols row zero = omega arith
length-rows_from level cols row (suc n) =
    length-append (cols_from level row 0 cols) (rows_from level cols (row + 1) n)
    ∙ omega (arith, length-cols_from level row 0 cols, length-rows_from level cols (row + 1) n)

-- The walk has as many entries as the plan has tiles.
pub length-coordinates : (plan : Plan) → length (coordinates plan) ≡ tile_count plan
unfolding coordinates tile_count
length-coordinates [] = refl
length-coordinates (l ∷ levels) =
    length-append (rows_from l.level l.cols 0 l.rows) (coordinates levels)
    ∙ omega (arith, length-rows_from l.level l.cols 0 l.rows, length-coordinates levels)

abbrev pub IsAt : Coord → ℕ → ℕ → ℕ → Type 0
IsAt c level col row = (c.level ≡ level) × (c.col ≡ col) × (c.row ≡ row)

-- The coordinate stands in the walk.
abbrev pub Walked : Coord → List Coord → Type 0
Walked c [] = ⊥
Walked c (d ∷ walk) = IsAt c d.level d.col d.row ⊎ Walked c walk

-- The coordinate is a tile of the plan.
abbrev pub Planned : Coord → Plan → Type 0
Planned c [] = ⊥
Planned c (l ∷ levels) =
    ((c.level ≡ l.level) × (c.col < l.cols) × (c.row < l.rows)) ⊎ Planned c levels

Walked-append : (c : Coord) (xs ys : List Coord) → Walked c (xs ++ ys) ↔ (Walked c xs ⊎ Walked c ys)
Walked-append c [] ys = (λ w. inr w, λ w. elim w [ inl h ↦ absurd h | inr h ↦ h ])
Walked-append c (x ∷ xs) ys =
    let (to, from) = Walked-append c xs ys in
    (
      λ w. elim w [
        | inl h ↦ inl (inl h)
        | inr h ↦ elim (to h) [ inl k ↦ inl (inr k) | inr k ↦ inr k ]
      ],
      λ w. elim w [
        | inl h ↦ elim h [ inl k ↦ inl k | inr k ↦ inr (from (inl k)) ]
        | inr h ↦ inr (from (inr h))
      ],
    )

first_or_later : (a b : ℕ) → a ≤ b → (b ≡ a) ⊎ (a + 1 ≤ b)
first_or_later a b h = omega arith

Walked-cols_from :
    (c : Coord) (level row col n : ℕ)
    → Walked c (cols_from level row col n)
      ↔ ((c.level ≡ level) × (c.row ≡ row) × (col ≤ c.col) × (c.col < col + n))
unfolding cols_from
Walked-cols_from c level row col zero = (λ w. absurd w, λ h. omega arith)
Walked-cols_from c level row col (suc n) =
    let (to, from) = Walked-cols_from c level row (col + 1) n in
    (
      λ w. elim w [ inl h ↦ omega arith | inr h ↦ let k = to h in omega arith ],
      λ h. elim (first_or_later col c.col h.2) [
        | inl here ↦ inl (omega arith)
        | inr later ↦ inr (from (omega arith))
      ],
    )

Walked-rows_from :
    (c : Coord) (level cols row n : ℕ)
    → Walked c (rows_from level cols row n)
      ↔ ((c.level ≡ level) × (c.col < cols) × (row ≤ c.row) × (c.row < row + n))
unfolding rows_from
Walked-rows_from c level cols row zero = (λ w. absurd w, λ h. omega arith)
Walked-rows_from c level cols row (suc n) =
    let (to, from) = Walked-rows_from c level cols (row + 1) n in
    let (to_col, from_col) = Walked-cols_from c level row 0 cols in
    let (split, join) =
      Walked-append c (cols_from level row 0 cols) (rows_from level cols (row + 1) n) in
    (
      λ w. elim (split w) [
        | inl h ↦ let k = to_col h in omega arith
        | inr h ↦ let k = to h in omega arith
      ],
      λ h. elim (first_or_later row c.row h.2) [
        | inl here ↦ join (inl (from_col (omega arith)))
        | inr later ↦ join (inr (from (omega arith)))
      ],
    )

-- The walk holds exactly the tiles of the plan: every column below `cols` and every row below
-- `rows` of each of its levels.
pub Walked-coordinates : (c : Coord) (plan : Plan) → Walked c (coordinates plan) ↔ Planned c plan
unfolding coordinates
Walked-coordinates c [] = (λ w. w, λ p. p)
Walked-coordinates c (l ∷ levels) =
    let (to, from) = Walked-coordinates c levels in
    let (to_level, from_level) = Walked-rows_from c l.level l.cols 0 l.rows in
    let (split, join) = Walked-append c (rows_from l.level l.cols 0 l.rows) (coordinates levels) in
    (
      λ w. elim (split w) [
        | inl h ↦ inl (let k = to_level h in (k.0, k.1, omega arith))
        | inr h ↦ inr (to h)
      ],
      λ p. elim p [
        | inl k ↦ join (inl (from_level (k.0, k.1, omega arith, omega arith)))
        | inr k ↦ join (inr (from k))
      ],
    )

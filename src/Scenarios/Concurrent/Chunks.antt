-- ===== src/Scenarios/Concurrent/Chunks.antt =====
-- src/storage/scenarios/concurrent_curve.rs: the chunks against the coordinates they split.
use native.Mathlib.Nat.{div-add-mod, mod-lt}
use libviprs_bench.Base.{
  ℕ, zero, suc, ◌+◌, ◌*◌, ◌/◌, ◌%◌, ◌≤◌, ◌<◌, List, [], ◌∷◌, ◌++◌, ◌≡◌, refl, ap, subst, ◌∙◌, sym,
  arith, length, take, drop, concat, length-take, length-drop, drop_all, take-drop, All, false,
  if◌then◌else◌, ltb, ◌==◌,
}
use libviprs_bench.Scenarios.Concurrent.{repeated, chunks_from, chunks}

-- A chunk is as long as the even share, or one longer.
abbrev pub IsFair : {A : Type 0} → List A → ℕ → List A → Type 0
IsFair coords threads piece =
    (length coords / threads ≤ length piece) × (length piece ≤ length coords / threads + 1)

module _ {A : Type 0} (coords : List A) (base remainder : ℕ) where
  -- Where the loop stands at `index`.
  start : ℕ → ℕ
  start index = index * base + (if ltb index remainder then index else remainder)

  size : ℕ → ℕ
  size index = base + (if ltb index remainder then 1 else 0)

  start-suc : (index : ℕ) → start (index + 1) ≡ start index + size index
  unfolding start size
  start-suc index =
      let e : (index + 1) * base ≡ index * base + base = ground arith in rw e (ground arith)

  start-zero : 0 ≡ start 0
  unfolding start
  start-zero = ground arith

  size_bounds : (index : ℕ) → (base ≤ size index) × (size index ≤ base + 1)
  unfolding size
  size_bounds index = ground arith

  start_mono : (index k : ℕ) → start index ≤ start (index + k)
  start_mono index zero = let e : index + 0 ≡ index = omega arith in rw e (omega arith)
  start_mono index (suc k) =
      let e : index + suc k ≡ index + k + 1 = omega arith in
      rw e (omega (arith, start_mono index k, start-suc (index + k)))

  -- From `index` on, the loop puts out what is left of the coordinates.
  concat-chunks_from :
      (left index at : ℕ)
      → at ≡ start index
      → start (index + left) ≡ length coords
      → concat (chunks_from coords base remainder left index at) ≡ drop at coords
  unfolding chunks_from size
  concat-chunks_from zero index at here h =
      let e : index + 0 ≡ index = omega arith in
      let end : start index ≡ length coords = ap start (sym e) ∙ h in
      sym (drop_all at coords (omega arith))
  concat-chunks_from (suc left) index at here h =
      let e : index + suc left ≡ index + 1 + left = omega arith in
      ap (λ r. take (size index) (drop at coords) ++ r)
        (concat-chunks_from left (index + 1) (at + size index)
          (ap (λ s. s + size index) here ∙ sym (start-suc index)) (ap start (sym e) ∙ h))
      ∙ take-drop (size index) at coords

  -- Every piece that the loop puts out has the size of its index.
  All-chunks_from :
      (P : ℕ → Type 0) (left index at : ℕ)
      → ((i : ℕ) → P (size i))
      → at ≡ start index
      → start (index + left) ≡ length coords
      → All (λ piece. P (length piece)) (chunks_from coords base remainder left index at)
  unfolding chunks_from size
  All-chunks_from P zero index at p here h = tt
  All-chunks_from P (suc left) index at p here h =
      let e : index + suc left ≡ index + 1 + left = omega arith in
      let room : at + size index ≤ length coords =
        omega (arith, start_mono (index + 1) left, start-suc index, ap start e, h) in
      let fits : length (take (size index) (drop at coords)) ≡ size index =
        length-take (size index) (drop at coords) (omega (arith, length-drop at coords)) in
      (
        subst P (sym fits) (p index),
        All-chunks_from P left (index + 1) (at + size index) p
            (ap (λ s. s + size index) here ∙ sym (start-suc index)) (ap start (sym e) ∙ h),
      )

length-chunks_from :
    {A : Type 0} (coords : List A) (base remainder left index at : ℕ)
    → length (chunks_from coords base remainder left index at) ≡ left
unfolding chunks_from
length-chunks_from coords base remainder zero index at = refl
length-chunks_from coords base remainder (suc left) index at =
    ap suc (length-chunks_from coords base remainder left (index + 1) _)

-- The loop ends at the end of the coordinates.
start-length :
    {A : Type 0} (coords : List A) (threads : ℕ)
    → 1 ≤ threads
    → start coords (length coords / threads) (length coords % threads) (0 + threads) ≡ length coords
unfolding start
start-length coords threads h =
    let n = length coords in
    let e : 0 + threads ≡ threads = omega arith in
    let whole : threads * (n / threads) + n % threads ≡ n = div-add-mod n threads in
    let small : n % threads < threads = mod-lt n (omega arith) in rw e (ground arith)

length-repeated : {A : Type 0} (n : ℕ) (a : A) → length (repeated n a) ≡ n
unfolding repeated
length-repeated zero a = refl
length-repeated (suc n) a = ap suc (length-repeated n a)

concat-repeated : {A : Type 0} (n : ℕ) → concat (repeated {A = List A} n []) ≡ []
unfolding repeated
concat-repeated zero = refl
concat-repeated (suc n) = concat-repeated n

All-repeated : {A : Type 0} (P : A → Type 0) (n : ℕ) (a : A) → P a → All P (repeated n a)
unfolding repeated
All-repeated P zero a p = tt
All-repeated P (suc n) a p = (p, All-repeated P n a p)

-- For at least one thread there is one chunk for each thread, the chunks one after the other are
-- the coordinates, and each has the even share of them or one more.
pub concat-chunks :
    {A : Type 0} (coords : List A) (threads : ℕ)
    → 1 ≤ threads
    → (length (chunks coords threads) ≡ threads)
      × (concat (chunks coords threads) ≡ coords)
      × All (IsFair coords threads) (chunks coords threads)
unfolding chunks
concat-chunks [] threads h = (
  length-repeated threads [],
  concat-repeated threads,
  All-repeated (IsFair [] threads) threads [] (omega arith, omega arith),
)
concat-chunks (x ∷ xs) threads h =
    let base = length (x ∷ xs) / threads in
    let extra = length (x ∷ xs) % threads in
    let first : 0 ≡ start (x ∷ xs) base extra 0 = start-zero (x ∷ xs) base extra in
    let last = start-length (x ∷ xs) threads h in
    let some_left : (suc (length xs) == 0) ≡ false = ground arith in
    rw some_left (
      length-chunks_from (x ∷ xs) base extra threads 0 0,
      concat-chunks_from (x ∷ xs) base extra threads 0 0 first last,
      All-chunks_from (x ∷ xs) base extra (λ n. (base ≤ n) × (n ≤ base + 1)) threads 0 0
          (size_bounds (x ∷ xs) base extra) first last,
    )

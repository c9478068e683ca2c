-- ===== src/Base/Slices.antt =====
-- Slices of lists, measured by native numbers, and lists of lists put together.
use Prim.Native.Nat.{ℕ, zero, suc, ◌+◌, ◌-◌, ◌≤◌}
use mathlib.Core.Path.{◌≡◌, refl, sym, ap, ◌∙◌}
use mathlib.Core.List.{List, [], ◌∷◌, ◌++◌}
use native.Mathlib.Omega.{arith}
use libviprs_bench.Base.Lists.{length}

module _ {ℓ} {A : Type ℓ} where
  abbrev pub take : ℕ → List A → List A
  take zero xs = []
  take (suc n) [] = []
  take (suc n) (x ∷ xs) = x ∷ take n xs

  abbrev pub drop : ℕ → List A → List A
  drop zero xs = xs
  drop (suc n) [] = []
  drop (suc n) (x ∷ xs) = drop n xs

  abbrev pub concat : List (List A) → List A
  concat [] = []
  concat (xs ∷ rest) = xs ++ concat rest

  pub length-take : (n : ℕ) (xs : List A) → n ≤ length xs → length (take n xs) ≡ n
  length-take zero xs h = refl
  length-take (suc n) [] h = absurd (omega arith)
  length-take (suc n) (x ∷ xs) h = ap suc (length-take n xs (omega arith))

  pub length-drop : (n : ℕ) (xs : List A) → length (drop n xs) ≡ length xs - n
  length-drop zero xs = omega arith
  length-drop (suc n) [] = omega arith
  length-drop (suc n) (x ∷ xs) = omega (arith, length-drop n xs)

  pub drop_all : (n : ℕ) (xs : List A) → length xs ≤ n → drop n xs ≡ []
  drop_all zero [] h = refl
  drop_all zero (x ∷ xs) h = absurd (omega arith)
  drop_all (suc n) [] h = refl
  drop_all (suc n) (x ∷ xs) h = drop_all n xs (omega arith)

  take-and-drop : (n : ℕ) (xs : List A) → take n xs ++ drop n xs ≡ xs
  take-and-drop zero xs = refl
  take-and-drop (suc n) [] = refl
  take-and-drop (suc n) (x ∷ xs) = ap (λ r. x ∷ r) (take-and-drop n xs)

  drop-drop : (n at : ℕ) (xs : List A) → drop (at + n) xs ≡ drop n (drop at xs)
  drop-drop n zero xs = let e : 0 + n ≡ n = omega arith in ap (λ k. drop k xs) e
  drop-drop n (suc at) [] =
      drop_all (suc at + n) [] (omega arith) ∙ sym (drop_all n [] (omega arith))
  drop-drop n (suc at) (x ∷ xs) =
      let e : suc at + n ≡ suc (at + n) = omega arith in
      ap (λ k. drop k (x ∷ xs)) e ∙ drop-drop n at xs

  -- A slice and what follows it.
  pub take-drop : (n at : ℕ) (xs : List A) → take n (drop at xs) ++ drop (at + n) xs ≡ drop at xs
  take-drop n at xs = rw drop-drop (take-and-drop n (drop at xs))

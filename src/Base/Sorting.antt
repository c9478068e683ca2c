-- ===== src/Base/Sorting.antt =====
-- `slice::sort_by_key` and `sort`: stable, here by insertion. `le` compares two elements by key.
use Prim.Native.Nat.{suc}
use mathlib.Core.Path.{◌≡◌, refl, ap, ◌∙◌}
use mathlib.Core.Bool.{Bool, true, false, ◌||◌}
use mathlib.Core.Logic.{inl, inr}
use mathlib.Core.List.{List, [], ◌∷◌, Perm}
use mathlib.Core.List.Perm
use native.Mathlib.Omega.{arith}
use libviprs_bench.Base.Tests.{if◌then◌else◌, Bool-cases}
use libviprs_bench.Base.Lists.{All, length}
use libviprs_bench.Base.Lines.{any}

module _ {A : Type 0} (le : A → A → Bool) where
  pub insert_sorted : A → List A → List A
  insert_sorted x [] = x ∷ []
  insert_sorted x (y ∷ ys) =
      let rest = insert_sorted x ys in if le x y then x ∷ y ∷ ys else y ∷ rest

  unfoldable pub sort : List A → List A
  unfolding insert_sorted
  sort [] = []
  sort (x ∷ xs) = insert_sorted x (sort xs)

  -- The element comes before each of the list.
  abbrev pub Precedes : A → List A → Type 0
  Precedes x ys = All (λ y. le x y ≡ true) ys

  abbrev pub IsOrdered : List A → Type 0
  IsOrdered [] = Unit
  IsOrdered (x ∷ xs) = Precedes x xs × IsOrdered xs

-- Each element is related to each that follows it.
abbrev pub Related : {A : Type 0} → (A → A → Type 0) → List A → Type 0
Related R [] = Unit
Related R (x ∷ xs) = All (R x) xs × Related R xs

abbrev pub keep : {A : Type 0} → (A → Bool) → List A → List A
keep p [] = []
keep p (x ∷ xs) = if p x then x ∷ keep p xs else keep p xs

module _ {A : Type 0} (le : A → A → Bool) where
  insert_sorted-perm : (x : A) (ys : List A) → Perm (insert_sorted le x ys) (x ∷ ys)
  unfolding insert_sorted
  insert_sorted-perm x [] = Perm.refl _
  insert_sorted-perm x (y ∷ ys) = elim (Bool-cases (le x y)) [
    | inl before ↦ rw before (Perm.refl _)
    | inr after ↦ rw after (Perm.trans (Perm.cons y (insert_sorted-perm x ys)) (Perm.swap x y ys))
  ]

  pub sort-perm : (xs : List A) → Perm (sort le xs) xs
  unfolding sort
  sort-perm [] = Perm.refl _
  sort-perm (x ∷ xs) = Perm.trans (insert_sorted-perm x (sort le xs)) (Perm.cons x (sort-perm xs))

  All-insert_sorted :
      (P : A → Type 0) (x : A) (ys : List A) → P x → All P ys → All P (insert_sorted le x ys)
  unfolding insert_sorted
  All-insert_sorted P x [] p h = (p, tt)
  All-insert_sorted P x (y ∷ ys) p (q, h) = elim (Bool-cases (le x y)) [
    | inl before ↦ rw before (p, (q, h))
    | inr after ↦ rw after (q, All-insert_sorted P x ys p h)
  ]

  pub All-sort : (P : A → Type 0) (xs : List A) → All P xs → All P (sort le xs)
  unfolding sort
  All-sort P [] h = tt
  All-sort P (x ∷ xs) (p, h) = All-insert_sorted P x (sort le xs) p (All-sort P xs h)

  All-of_insert :
      (P : A → Type 0) (x : A) (ys : List A) → All P (insert_sorted le x ys) → All P (x ∷ ys)
  unfolding insert_sorted
  All-of_insert P x [] = λ h. h
  All-of_insert P x (y ∷ ys) = elim (Bool-cases (le x y)) [
    | inl before ↦ rw before (λ h. h)
    | inr after ↦ rw after (λ h. let (p, q) = All-of_insert P x ys h.1 in (p, (h.0, q)))
  ]

  pub All-of_sort : (P : A → Type 0) (xs : List A) → All P (sort le xs) → All P xs
  unfolding sort
  All-of_sort P [] h = tt
  All-of_sort P (x ∷ xs) h =
      let (p, q) = All-of_insert P x (sort le xs) h in (p, All-of_sort P xs q)

  any-insert_sorted :
      (p : A → Bool) (x : A) (ys : List A) → any p (insert_sorted le x ys) ≡ (p x || any p ys)
  unfolding insert_sorted
  any-insert_sorted p x [] = refl
  any-insert_sorted p x (y ∷ ys) = ground (arith, any-insert_sorted p x ys)

  pub any-sort : (p : A → Bool) (xs : List A) → any p (sort le xs) ≡ any p xs
  unfolding sort
  any-sort p [] = refl
  any-sort p (x ∷ xs) = ground (arith, any-insert_sorted p x (sort le xs), any-sort p xs)

  length-insert_sorted : (x : A) (ys : List A) → length (insert_sorted le x ys) ≡ suc (length ys)
  unfolding insert_sorted
  length-insert_sorted x [] = refl
  length-insert_sorted x (y ∷ ys) = ground (arith, length-insert_sorted x ys)

  pub length-sort : (xs : List A) → length (sort le xs) ≡ length xs
  unfolding sort
  length-sort [] = refl
  length-sort (x ∷ xs) = length-insert_sorted x (sort le xs) ∙ ap suc (length-sort xs)

  insert_first : (x : A) (ys : List A) → Precedes le x ys → insert_sorted le x ys ≡ x ∷ ys
  unfolding insert_sorted
  insert_first x [] h = refl
  insert_first x (y ∷ ys) (p, h) = rw p refl

  -- What is in order stays as it is.
  pub sort-ordered : (xs : List A) → IsOrdered le xs → sort le xs ≡ xs
  unfolding sort
  sort-ordered [] h = refl
  sort-ordered (x ∷ xs) (p, h) = rw (sort-ordered xs h) (insert_first x xs p)

  -- Elements of equal keys keep their order.
  keep-insert_sorted :
      (p : A → Bool) (x : A) (ys : List A)
      → ((a b : A) → p a ≡ true → p b ≡ true → le a b ≡ true)
      → keep p (insert_sorted le x ys) ≡ keep p (x ∷ ys)
  unfolding insert_sorted
  keep-insert_sorted p x [] h = refl
  keep-insert_sorted p x (y ∷ ys) h = elim (Bool-cases (le x y)) [
    | inl before ↦ rw before refl
    | inr after ↦ ground (arith, keep-insert_sorted p x ys h, h x y)
  ]

  pub keep-sort :
      (p : A → Bool) (xs : List A)
      → ((a b : A) → p a ≡ true → p b ≡ true → le a b ≡ true)
      → keep p (sort le xs) ≡ keep p xs
  unfolding sort
  keep-sort p [] h = refl
  keep-sort p (x ∷ xs) h = ground (arith, keep-insert_sorted p x (sort le xs) h, keep-sort p xs h)

  module _ (R : A → A → Type 0) (symmetric : (a b : A) → R a b → R b a) where
    Related-insert_sorted :
        (x : A) (ys : List A) → All (R x) ys → Related R ys → Related R (insert_sorted le x ys)
    unfolding insert_sorted
    Related-insert_sorted x [] h r = (tt, tt)
    Related-insert_sorted x (y ∷ ys) (p, h) (q, r) = elim (Bool-cases (le x y)) [
      | inl before ↦ rw before ((p, h), (q, r))
      | inr after ↦
          rw after
            (All-insert_sorted (R y) x ys (symmetric x y p) q, Related-insert_sorted x ys h r)
    ]

    pub Related-sort : (xs : List A) → Related R xs → Related R (sort le xs)
    unfolding sort
    Related-sort [] r = tt
    Related-sort (x ∷ xs) (h, r) =
        Related-insert_sorted x (sort le xs) (All-sort (R x) xs h) (Related-sort xs r)

  module _ (total : (a b : A) → le a b ≡ false → le b a ≡ true)
      (transitive : (a b c : A) → le a b ≡ true → le b c ≡ true → le a c ≡ true) where
    Precedes-trans : (x y : A) (ys : List A) → le x y ≡ true → Precedes le y ys → Precedes le x ys
    Precedes-trans x y [] h p = tt
    Precedes-trans x y (z ∷ ys) h (q, p) = (transitive x y z h q, Precedes-trans x y ys h p)

    insert_sorted-IsOrdered :
        (x : A) (ys : List A) → IsOrdered le ys → IsOrdered le (insert_sorted le x ys)
    unfolding insert_sorted
    insert_sorted-IsOrdered x [] h = (tt, tt)
    insert_sorted-IsOrdered x (y ∷ ys) (p, h) = elim (Bool-cases (le x y)) [
      | inl before ↦ rw before ((before, Precedes-trans x y ys before p), (p, h))
      | inr after ↦ rw after (
        All-insert_sorted (λ z. le y z ≡ true) x ys (total x y after) p,
        insert_sorted-IsOrdered x ys h,
      )
    ]

    pub sort-IsOrdered : (xs : List A) → IsOrdered le (sort le xs)
    unfolding sort
    sort-IsOrdered [] = tt
    sort-IsOrdered (x ∷ xs) = insert_sorted-IsOrdered x (sort le xs) (sort-IsOrdered xs)

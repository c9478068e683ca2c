-- ===== src/Json/Keys.antt =====
-- The keys of an object in ascending order, as `keys.sort()` in src/storage/integrity.rs leaves them.
pub mod Any
use libviprs_bench.Base.{
  Bool, true, false, String, List, [], ◌∷◌, Option, none, some, ◌≡◌, refl, ◌∙◌, arith, str_eq,
  str_eq_iff, str_ltb, str_ltb_irrefl, str_ltb_trans, str_ltb_total, if◌then◌else◌, inl, inr,
  Bool-cases,
}
use libviprs_bench.Json.{Map, empty, entry, keys, lookup, has_key, IsUnique}

abbrev pub is_some : {A : Type 0} → Option A → Bool
is_some none = false
is_some (some a) = true

pub has_key-eq-lookup : (k : String) (m : Map) → has_key k m ≡ is_some (lookup k m)
unfolding lookup
has_key-eq-lookup k empty = refl
has_key-eq-lookup k (entry j v m) = ground (arith, has_key-eq-lookup k m)

abbrev pub has : String → List String → Bool
has k [] = false
has k (j ∷ ks) = if str_eq j k then true else has k ks

pub insert_key : String → List String → List String
insert_key k [] = k ∷ []
insert_key k (j ∷ ks) = if str_ltb j k then j ∷ insert_key k ks else k ∷ j ∷ ks

-- `keys.sort()`
unfoldable pub sort_keys : List String → List String
unfolding insert_key
sort_keys [] = []
sort_keys (k ∷ ks) = insert_key k (sort_keys ks)

-- `k` stands strictly below every key of the list.
abbrev IsBelow : String → List String → Type 0
IsBelow k [] = Unit
IsBelow k (j ∷ ks) = (str_ltb k j ≡ true) × IsBelow k ks

abbrev IsAscending : List String → Type 0
IsAscending [] = Unit
IsAscending (k ∷ ks) = IsBelow k ks × IsAscending ks

abbrev NoRepeats : List String → Type 0
NoRepeats [] = Unit
NoRepeats (k ∷ ks) = (has k ks ≡ false) × NoRepeats ks

has-insert_key :
    (k j : String) (ks : List String)
    → has j (insert_key k ks) ≡ (if str_eq k j then true else has j ks)
unfolding insert_key
has-insert_key k j [] = refl
has-insert_key k j (i ∷ ks) = ground (arith, has-insert_key k j ks)

has-sort_keys : (k : String) (ks : List String) → has k (sort_keys ks) ≡ has k ks
unfolding sort_keys
has-sort_keys k [] = refl
has-sort_keys k (j ∷ ks) = ground (arith, has-insert_key j k (sort_keys ks), has-sort_keys k ks)

IsBelow-trans : (k j : String) (ks : List String) → str_ltb k j ≡ true → IsBelow j ks → IsBelow k ks
IsBelow-trans k j [] h b = tt
IsBelow-trans k j (i ∷ ks) h (b, bs) = (str_ltb_trans k j i h b, IsBelow-trans k j ks h bs)

IsBelow-insert_key :
    (k j : String) (ks : List String)
    → str_ltb k j ≡ true
    → IsBelow k ks
    → IsBelow k (insert_key j ks)
unfolding insert_key
IsBelow-insert_key k j [] h b = (h, tt)
IsBelow-insert_key k j (i ∷ ks) h (b, bs) = elim (Bool-cases (str_ltb i j)) [
  | inl e ↦ rw e (b, IsBelow-insert_key k j ks h bs)
  | inr e ↦ rw e (h, (b, bs))
]

insert_key-IsAscending :
    (k : String) (ks : List String)
    → has k ks ≡ false
    → IsAscending ks
    → IsAscending (insert_key k ks)
unfolding insert_key
insert_key-IsAscending k [] n a = (tt, tt)
insert_key-IsAscending k (j ∷ ks) n (b, a) = elim (Bool-cases (str_ltb j k)) [
  | inl e ↦ rw e (IsBelow-insert_key j k ks e b, insert_key-IsAscending k ks (ground arith) a)
  | inr e ↦
      let below : str_ltb k j ≡ true = ground (arith, str_ltb_total k j, str_eq_iff j k) in
      rw e ((below, IsBelow-trans k j ks below b), (b, a))
]

sort_keys-IsAscending : (ks : List String) → NoRepeats ks → IsAscending (sort_keys ks)
unfolding sort_keys
sort_keys-IsAscending [] n = tt
sort_keys-IsAscending (k ∷ ks) (new, n) =
    insert_key-IsAscending k (sort_keys ks) (has-sort_keys k ks ∙ new) (sort_keys-IsAscending ks n)

lt_of_has : (k j : String) (ks : List String) → IsBelow k ks → has j ks ≡ true → str_ltb k j ≡ true
lt_of_has k j [] b h = cc
lt_of_has k j (i ∷ ks) (b, bs) h = ground (arith, lt_of_has k j ks bs, str_eq_iff i j)

not_has_of_below : (k : String) (ks : List String) → IsBelow k ks → has k ks ≡ false
not_has_of_below k ks b = elim (Bool-cases (has k ks)) [
  | inl h ↦ cc (lt_of_has k k ks b h, str_ltb_irrefl k)
  | inr h ↦ h
]

heads_equal :
    (x y : String) (xs ys : List String)
    → IsBelow x xs
    → IsBelow y ys
    → ((k : String) → has k (x ∷ xs) ≡ has k (y ∷ ys))
    → x ≡ y
heads_equal x y xs ys b c h = ground (
  arith,
  h x,
  h y,
  str_eq_iff x y,
  str_eq_iff y x,
  str_eq_iff x x,
  str_eq_iff y y,
  lt_of_has x y xs b,
  lt_of_has y x ys c,
  str_ltb_trans x y x,
  str_ltb_irrefl x,
)

-- An ascending list is fixed by which keys it has.
ascending_unique :
    (xs ys : List String)
    → IsAscending xs
    → IsAscending ys
    → ((k : String) → has k xs ≡ has k ys)
    → xs ≡ ys
ascending_unique [] [] a b h = refl
ascending_unique [] (y ∷ ys) a b h = ground (arith, h y, str_eq_iff y y)
ascending_unique (x ∷ xs) [] a b h = ground (arith, h x, str_eq_iff x x)
ascending_unique (x ∷ xs) (y ∷ ys) (p, a) (q, b) h =
    let e : x ≡ y = heads_equal x y xs ys p q h in
    let tails : xs ≡ ys = ascending_unique xs ys a b λ k. ground (
      arith,
      h k,
      str_eq_iff x k,
      str_eq_iff y k,
      not_has_of_below x xs p,
      not_has_of_below y ys q,
    ) in
    cc

pub has-keys : (k : String) (m : Map) → has k (keys m) ≡ has_key k m
has-keys k empty = refl
has-keys k (entry j v m) = ground (arith, has-keys k m)

NoRepeats-keys : (m : Map) → IsUnique m → NoRepeats (keys m)
NoRepeats-keys empty u = tt
NoRepeats-keys (entry k v m) (new, u) = (has-keys k m ∙ new, NoRepeats-keys m u)

-- The same value, or none, at every key.
abbrev pub SameLookups : Map → Map → Type 0
SameLookups m n = (k : String) → lookup k m ≡ lookup k n

-- Two objects with the same lookups have the same keys in the same ascending order.
pub sort_keys-same :
    (m n : Map)
    → IsUnique m
    → IsUnique n
    → SameLookups m n
    → sort_keys (keys m) ≡ sort_keys (keys n)
sort_keys-same m n u v h =
    ascending_unique (sort_keys (keys m)) (sort_keys (keys n))
      (sort_keys-IsAscending (keys m) (NoRepeats-keys m u))
      (sort_keys-IsAscending (keys n) (NoRepeats-keys n v))
      λ k. cc (
        has-sort_keys k (keys m),
        has-sort_keys k (keys n),
        has-keys k m,
        has-keys k n,
        has_key-eq-lookup k m,
        has_key-eq-lookup k n,
        h k,
      )

-- ===== src/Samples/Equality.antt =====
-- A sound test of the equality of JSON values, for the sample serde_json of the tests.
use libviprs_bench.Base.{Bool, true, false, ◌&&◌, ◌==◌, ◌≡◌, refl, ap, arith, str_eq, str_eq_iff}
use mathlib.Core.Path.{ap₂}
use libviprs_bench.Json.{
  Number, unsigned, negative, float, Value, null, bool, number, string, array, object, Items, nil,
  cons, Map, empty, entry,
}

abbrev pub bool_eq : Bool → Bool → Bool
bool_eq true true = true
bool_eq false false = true
bool_eq _ _ = false

abbrev pub number_eq : Number → Number → Bool
number_eq (unsigned m) (unsigned n) = m == n
number_eq (negative m) (negative n) = m == n
number_eq (float m) (float n) = m == n
number_eq _ _ = false

unfoldable mutual
  pub value_eqb : Value → Value → Bool
  value_eqb null null = true
  value_eqb (bool a) (bool b) = bool_eq a b
  value_eqb (number a) (number b) = number_eq a b
  value_eqb (string a) (string b) = str_eq a b
  value_eqb (array a) (array b) = items_eqb a b
  value_eqb (object a) (object b) = map_eqb a b
  value_eqb _ _ = false

  items_eqb : Items → Items → Bool
  items_eqb nil nil = true
  items_eqb (cons v vs) (cons w ws) = value_eqb v w && items_eqb vs ws
  items_eqb _ _ = false

  map_eqb : Map → Map → Bool
  map_eqb empty empty = true
  map_eqb (entry j v m) (entry k w n) = str_eq j k && (value_eqb v w && map_eqb m n)
  map_eqb _ _ = false

number_eq-eq : (m n : Number) → number_eq m n ≡ true → m ≡ n
number_eq-eq (unsigned m) (unsigned n) h = ground arith
number_eq-eq (negative m) (negative n) h = ground arith
number_eq-eq (float m) (float n) h = ground arith
number_eq-eq _ _ h = ground arith

both : (a b : Bool) → (a && b) ≡ true → (a ≡ true) × (b ≡ true)
both true true h = (refl, refl)
both true false h = (refl, h)
both false b h = ground arith

bool_eq-eq : (a b : Bool) → bool_eq a b ≡ true → a ≡ b
bool_eq-eq true true h = refl
bool_eq-eq false false h = refl
bool_eq-eq _ _ h = ground arith

mutual
  unfolding value_eqb

  pub value_eqb-eq : (v w : Value) → value_eqb v w ≡ true → v ≡ w
  value_eqb-eq null null h = refl
  value_eqb-eq (bool a) (bool b) h = ap bool (bool_eq-eq a b h)
  value_eqb-eq (number a) (number b) h = ap number (number_eq-eq a b h)
  value_eqb-eq (string a) (string b) h = ap string ((str_eq_iff a b).0 h)
  value_eqb-eq (array a) (array b) h = ap array (items_eqb-eq a b h)
  value_eqb-eq (object a) (object b) h = ap object (map_eqb-eq a b h)
  value_eqb-eq _ _ h = ground arith

  items_eqb-eq : (v w : Items) → items_eqb v w ≡ true → v ≡ w
  items_eqb-eq nil nil h = refl
  items_eqb-eq (cons v vs) (cons w ws) h =
      let (first, rest) = both (value_eqb v w) (items_eqb vs ws) h in
      ap₂ cons (value_eqb-eq v w first) (items_eqb-eq vs ws rest)
  items_eqb-eq _ _ h = ground arith

  map_eqb-eq : (m n : Map) → map_eqb m n ≡ true → m ≡ n
  map_eqb-eq empty empty h = refl
  map_eqb-eq (entry j v m) (entry k w n) h =
      let (names, others) = both (str_eq j k) (value_eqb v w && map_eqb m n) h in
      let (values, rest) = both (value_eqb v w) (map_eqb m n) others in
      λ i. entry ((str_eq_iff j k).0 names i) (value_eqb-eq v w values i) (map_eqb-eq m n rest i)
  map_eqb-eq _ _ h = ground arith

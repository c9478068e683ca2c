-- ===== src/Samples/Serde.antt =====
-- The sample serde_json, which reads three texts and prints two values, and the sample libraries with it.
use libviprs_bench.Base.{
  Bool, true, false, String, ◌≡◌, refl, ap, subst, ◌⊎◌, sym, str_eq, [], ◌∷◌, none, inl, inr,
  if◌then◌else◌, Result, ok, err, ◌&◌,
}
use libviprs_bench.Json.{Value, object, IsUniqueValue}
use libviprs_bench.Json.Serde.{Serde}
use libviprs_bench.Crates.{Crates}
use libviprs_bench.Planner.{Planner}
use libviprs_bench.Archive.Store.{World}
use libviprs_bench.Samples.Equality.{value_eqb, value_eqb-eq}
use libviprs_bench.Samples.Libraries.{
  insert, remove, lookup-insert, lookup-remove, insert-IsUnique, remove-IsUnique,
}
use libviprs_bench.Samples.Documents.{
  raw_map, raw_map-IsUnique, filed_map, filed_map-IsUnique, rows, from_str, to_string_pretty,
  rows_of, rows_of-items, hash, fmt, seals,
}

if_ok :
    {E A : Type 0} (b : Bool) (x : A) (rest : Result E A) {v : A}
    → (if b then ok x else rest) ≡ ok v
    → ((b ≡ true) × (x ≡ v)) ⊎ (rest ≡ ok v)
if_ok true x rest h = inl (refl, cc)
if_ok false x rest h = inr h

err≢ok : {E A : Type 0} (e : E) (v : A) → ◌≡◌ {A = Result E A} (err e) (ok v) → ⊥
err≢ok e v h = cc

pub from_str-IsUnique : (s : String) (v : Value) → from_str s ≡ ok v → IsUniqueValue v
from_str-IsUnique s v h = elim (if_ok (str_eq s "raw") (object raw_map) _ h) [
  | inl (_, e) ↦ subst IsUniqueValue e raw_map-IsUnique
  | inr h1 ↦ elim (if_ok (str_eq s "filed\n") (object filed_map) _ h1) [
    | inl (_, e) ↦ subst IsUniqueValue e filed_map-IsUnique
    | inr h2 ↦ elim (if_ok (str_eq s "rows\n") rows _ h2) [
      | inl (_, e) ↦ subst IsUniqueValue e tt
      | inr h3 ↦ absurd (err≢ok "expected value" v h3)
    ]
  ]
]

pub from_str-to_string_pretty :
    (v : Value) (s : String)
    → IsUniqueValue v
    → to_string_pretty v ≡ ok s
    → from_str (s & "\n") ≡ ok v
from_str-to_string_pretty v s u h = elim (if_ok (value_eqb v (object filed_map)) "filed" _ h) [
  | inl (same, e) ↦
      subst (λ t. from_str (t & "\n") ≡ ok v) e
        (ap ok (sym (value_eqb-eq v (object filed_map) same)))
  | inr h1 ↦ elim (if_ok (value_eqb v rows) "rows" _ h1) [
    | inl (same, e) ↦
        subst (λ t. from_str (t & "\n") ≡ ok v) e (ap ok (sym (value_eqb-eq v rows same)))
    | inr h2 ↦ absurd (err≢ok "too much" s h2)
  ]
]

abbrev pub serde : Serde
serde = record {
  insert = insert;
  remove = remove;
  lookup-insert = lookup-insert;
  lookup-remove = lookup-remove;
  insert-IsUnique = insert-IsUnique;
  remove-IsUnique = remove-IsUnique;
  value_eq = value_eqb;
  to_string = λ v. "raw";
  from_str = from_str;
  to_string_pretty = to_string_pretty;
  vec_from_str = λ s. rows_of (from_str s);
  vec_from_str-items = rows_of-items;
  from_str-IsUnique = from_str-IsUnique;
  from_str-to_string_pretty = from_str-to_string_pretty;
}

abbrev pub crates : Crates
crates = record { fmt = fmt; serde = serde; seals = seals; hash = hash }

-- A planner that refuses every canvas.
abbrev pub planner : Planner
planner _ _ _ = none

-- An empty directory, with a clock that has one reading left.
abbrev pub world : World
world = record { files = λ p. none; faults = []; nonces = 7 ∷ []; process_id = 1 }

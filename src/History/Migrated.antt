-- ===== src/History/Migrated.antt =====
-- src/lib.rs: what `migrate_snapshot` changes of a snapshot, and what it keeps.
use Prim.Native.Char.{Char, code}
use Prim.Native.Nat.{max}
use text.Mathlib.TextLemmas.{nil-append, cons-append}
use libviprs_bench.Base.{
  ℕ, false, ◌||◌, ◌==◌, String, List, [], ◌∷◌, map, ◌≡◌, refl, arith, if◌then◌else◌, All, ltb,
  str_eq, trim, join, ◌&◌, Bool-cases, inl, inr, is_whitespace,
}
use libviprs_bench.History.{
  RunMetrics, BenchmarkSnapshot, migrate_snapshot, is_blank, legacy_snapshot_family,
  current_schema_version, normalize_run_label, contains_space, fields, prepend, non_empty,
  split_whitespace, relabel,
}

-- The text has no space.
abbrev pub IsUnspaced : String → Type 0
IsUnspaced s = contains_space s ≡ false

space_is_whitespace : (c : ℕ) → is_whitespace c ≡ false → (c == b' ') ≡ false
unfolding is_whitespace
space_is_whitespace c h = ground arith

prepend-IsUnspaced :
    (c : Char) (ss : List String)
    → (code c == b' ') ≡ false
    → All IsUnspaced ss
    → All IsUnspaced (prepend c ss)
unfolding prepend contains_space
prepend-IsUnspaced c [] p h = (rw p refl, tt)
prepend-IsUnspaced c (s ∷ ss) p (q, h) = (rw p q, h)

fields-IsUnspaced : (s : String) → All IsUnspaced (fields s)
unfolding fields contains_space
fields-IsUnspaced String.[] = (refl, tt)
fields-IsUnspaced (String.◌∷◌ c s) =
    let ih = fields-IsUnspaced s in
    elim (Bool-cases (is_whitespace (code c))) [
      | inl white ↦ rw white (refl, ih)
      | inr black ↦
          rw black (prepend-IsUnspaced c (fields s) (space_is_whitespace (code c) black) ih)
    ]

non_empty-IsUnspaced : (ss : List String) → All IsUnspaced ss → All IsUnspaced (non_empty ss)
unfolding non_empty
non_empty-IsUnspaced [] h = tt
non_empty-IsUnspaced (s ∷ ss) (p, h) =
    let ih = non_empty-IsUnspaced ss h in
    elim (Bool-cases (str_eq s "")) [ inl e ↦ rw e ih | inr e ↦ rw e (p, ih) ]

contains_space-append :
    (s t : String) → contains_space (s & t) ≡ (contains_space s || contains_space t)
unfolding contains_space
contains_space-append String.[] t = rw nil-append
contains_space-append (String.◌∷◌ c s) t =
    rw cons-append (ground (arith, contains_space-append s t))

join-IsUnspaced : (ss : List String) → All IsUnspaced ss → IsUnspaced (join "_" ss)
unfolding contains_space
join-IsUnspaced [] h = refl
join-IsUnspaced (s ∷ []) (p, h) = p
join-IsUnspaced (s ∷ t ∷ ss) (p, h) =
    rw (contains_space-append s ("_" & join "_" (t ∷ ss)), p)
      (rw (contains_space-append "_" (join "_" (t ∷ ss))) (join-IsUnspaced (t ∷ ss) h))

normalize-IsUnspaced : (label : String) → IsUnspaced (normalize_run_label label)
unfolding normalize_run_label split_whitespace
normalize-IsUnspaced label = elim (Bool-cases (contains_space label)) [
  | inr none ↦ rw none none
  | inl some ↦ rw some (join-IsUnspaced _ (non_empty-IsUnspaced _ (fields-IsUnspaced label)))
]

normalize-unspaced : (label : String) → IsUnspaced label → normalize_run_label label ≡ label
unfolding normalize_run_label
normalize-unspaced label h = rw h refl

-- The labels of these runs are normalized, and what they measured stays.
abbrev pub Relabelled : {R : Type 0} → List (RunMetrics R) → List (RunMetrics R) → Type 0
Relabelled [] [] = Unit
Relabelled [] (s ∷ after) = ⊥
Relabelled (r ∷ runs) [] = ⊥
Relabelled (r ∷ runs) (s ∷ after) =
    ((s.label ≡ (if contains_space r.label then join "_" (split_whitespace r.label) else r.label))
      × IsUnspaced s.label
      × (s.measured ≡ r.measured))
    × Relabelled runs after

normalize_run_label_lem :
    (label : String)
    → normalize_run_label label
      ≡ (if contains_space label then join "_" (split_whitespace label) else label)
unfolding normalize_run_label
normalize_run_label_lem label = ground arith

relabel-Relabelled : {R : Type 0} (runs : List (RunMetrics R)) → Relabelled runs (map relabel runs)
relabel-Relabelled [] = tt
relabel-Relabelled (r ∷ runs) =
    ((normalize_run_label_lem r.label, normalize-IsUnspaced r.label, refl), relabel-Relabelled runs)

relabel_twice :
    {R : Type 0} (runs : List (RunMetrics R)) → map relabel (map relabel runs) ≡ map relabel runs
relabel_twice [] = refl
relabel_twice (r ∷ runs) = λ i.
    record r {
      label = normalize-unspaced (normalize_run_label r.label) (normalize-IsUnspaced r.label) i;
    }
    ∷ relabel_twice runs i

abbrev family_after : String → String
family_after family = if is_blank family then legacy_snapshot_family else family

abbrev version_after : ℕ → ℕ
version_after n = if ltb n current_schema_version then current_schema_version else n

family_after-named : (family : String) → is_blank (family_after family) ≡ false
unfolding trim
family_after-named family = elim (Bool-cases (is_blank family)) [
  | inl blank ↦ rw blank refl
  | inr named ↦ rw (named, named) refl
]

family_twice : (family : String) → family_after (family_after family) ≡ family_after family
family_twice family = rw (family_after-named family) refl

version_twice : (n : ℕ) → version_after (version_after n) ≡ version_after n
version_twice n = ground arith

-- A migrated snapshot names a family, the one that it had or the legacy one in place of a blank one;
-- it has the greater of its schema version and the current one, runs with the same measurements,
-- whose labels have no space and are as they were where they had none, and everything else as it
-- was. To migrate it again changes nothing.
pub migrate_snapshot_lem :
    {R P : Type 0} (snap : BenchmarkSnapshot R P)
    → (is_blank (migrate_snapshot snap).family ≡ false)
      × ((migrate_snapshot snap).family
          ≡ (if is_blank snap.family then legacy_snapshot_family else snap.family))
      × ((migrate_snapshot snap).schema_version ≡ max snap.schema_version current_schema_version)
      × Relabelled snap.runs (migrate_snapshot snap).runs
      × (record (migrate_snapshot snap) {
        family = snap.family;
        schema_version = snap.schema_version;
        runs = snap.runs;
      }
          ≡ snap)
      × (migrate_snapshot (migrate_snapshot snap) ≡ migrate_snapshot snap)
unfolding migrate_snapshot
migrate_snapshot_lem snap = (
  family_after-named snap.family,
  refl,
  ground arith,
  relabel-Relabelled snap.runs,
  refl,
  λ i. record snap {
    runs = relabel_twice snap.runs i;
    family = family_twice snap.family i;
    schema_version = version_twice snap.schema_version i;
  },
)

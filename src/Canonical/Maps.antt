-- ===== src/Canonical/Maps.antt =====
-- src/storage/integrity.rs: `write_canonical` of two objects with the same lookups.
use mathlib.Core.Path.{fun_ext}
use libviprs_bench.Base.{
  true, String, List, [], ◌∷◌, ◌≡◌, refl, ap, ◌∙◌, sym, Option, none, some, arith, is_ascii, str_eq,
  str_eq_iff, ok, err, >>=-eq-ok, ◌&◌, Bool-cases, inl, inr,
}
use libviprs_bench.Json.{Value, object, Map, empty, entry, keys, lookup, IsUnique}
use libviprs_bench.Json.Keys.{
  sort_keys, SameLookups, sort_keys-same, has, has-keys, has_key-eq-lookup,
}
use libviprs_bench.Format.{Fmt}
use libviprs_bench.Canonical.{
  Chars, Canonical, malformed, check_ascii, sorted_keys, write_object, write_canonical, write_at,
}

-- All keys are ASCII, read off the lookups.
check_ascii-ok :
    (path : String) (ks : List String)
    → ((k : String) → has k ks ≡ true → is_ascii k ≡ true)
    → check_ascii path ks ≡ ok tt
unfolding check_ascii
check_ascii-ok path [] h = refl
check_ascii-ok path (k ∷ ks) h =
    let later : check_ascii path ks ≡ ok tt =
      check_ascii-ok path ks λ j p. h j (ground (arith, str_eq_iff k j)) in
    ground (arith, h k, str_eq_iff k k)

is_ascii_of_check :
    (path : String) (ks : List String) (k : String)
    → check_ascii path ks ≡ ok tt
    → has k ks ≡ true
    → is_ascii k ≡ true
unfolding check_ascii
is_ascii_of_check path [] k c h = cc
is_ascii_of_check path (j ∷ ks) k c h = ground (arith, str_eq_iff j k, is_ascii_of_check path ks k)

check_ascii-same :
    (path : String) (m n : Map)
    → SameLookups m n
    → check_ascii path (keys m) ≡ ok tt
    → check_ascii path (keys n) ≡ ok tt
check_ascii-same path m n same c = check_ascii-ok path (keys n) λ k p.
    is_ascii_of_check path (keys m) k c
      (cc (has-keys k m, has-keys k n, has_key-eq-lookup k m, has_key-eq-lookup k n, same k))

sorted_keys-same :
    (path : String) (m n : Map) {ks : List String}
    → IsUnique m
    → IsUnique n
    → SameLookups m n
    → sorted_keys m path ≡ ok ks
    → sorted_keys n path ≡ ok ks
unfolding sorted_keys
sorted_keys-same path m n {ks} u v same h =
    let (t, c, e) = >>=-eq-ok (check_ascii path (keys m)) (λ _. ok (sort_keys (keys m))) h in
    rw (check_ascii-same path m n same c) (rw (← sort_keys-same m n u v same) e)

module _ (fmt : Fmt) where
  -- What `&map[key]` gives is written; nothing else of the map matters.
  write_found : Option Value → String → String → Canonical Chars
  write_found none k path = err (malformed k)
  write_found (some v) k path = write_canonical fmt v (path & "." & k)

  write_at-eq-lookup :
      (m : Map) (k path : String) → write_at fmt m k path ≡ write_found (lookup k m) k path
  unfolding write_canonical lookup write_found
  write_at-eq-lookup empty k path = refl
  write_at-eq-lookup (entry j v m) k path = elim (Bool-cases (str_eq j k)) [
    | inl e ↦ rw e
    | inr e ↦ rw e (write_at-eq-lookup m k path)
  ]

  write_canonical-object :
      (m : Map) (path : String)
      → write_canonical fmt (object m) path ≡ write_object fmt m path (λ k. write_at fmt m k path)
  unfolding write_canonical
  write_canonical-object m path = refl

  write_object-same :
      (m n : Map) (path : String) (write : String → Canonical Chars) {out : Chars}
      → IsUnique m
      → IsUnique n
      → SameLookups m n
      → write_object fmt m path write ≡ ok out
      → write_object fmt n path write ≡ ok out
  unfolding write_object
  write_object-same m n path write u v same h =
      let (ks, sorted, body) = >>=-eq-ok (sorted_keys m path) _ h in
      rw (sorted_keys-same path m n u v same sorted) body

  write_at-same :
      (path : String) (m n : Map)
      → SameLookups m n
      → ◌≡◌ {A = String → Canonical Chars} (λ k. write_at fmt m k path) (λ k. write_at fmt n k path)
  write_at-same path m n same =
      fun_ext λ k. cc (write_at-eq-lookup m k path, write_at-eq-lookup n k path, same k)

  -- Where two objects with unique keys hold the same value at every key, in whatever order, and
  -- the one has a canonical text, the other has the same.
  pub write_canonical-same :
      (m n : Map) (path : String) {out : Chars}
      → IsUnique m
      → IsUnique n
      → SameLookups m n
      → write_canonical fmt (object m) path ≡ ok out
      → write_canonical fmt (object n) path ≡ ok out
  write_canonical-same m n path u v same h =
      write_canonical-object n path
      ∙ ap (write_object fmt n path) (sym (write_at-same path m n same))
      ∙ write_object-same m n path (λ k. write_at fmt m k path) u v same
          (sym (write_canonical-object m path) ∙ h)

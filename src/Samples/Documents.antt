-- ===== src/Samples/Documents.antt =====
-- A document that is admitted, as the producer writes it and as it is filed, the index with its row,
-- and the libraries of the tests.
use libviprs_bench.Base.{
  ℕ, ◌<◌, Bool, true, false, not, ◌&&◌, String, List, [], ◌∷◌, Option, some, ◌≡◌, refl, ap, arith,
  str_eq, if◌then◌else◌, Result, ok, err, ◌&◌, All, zero, suc,
}
use libviprs_bench.Json.{
  unsigned, Value, bool, number, string, array, object, Map, empty, entry, lookup, has_key,
  IsUnique, get, as_str, items, elements, ◌>>?◌,
}
use libviprs_bench.Format.{Fmt}
use libviprs_bench.Crates.{Digests, Seals, Hash}
use libviprs_bench.Samples.Equality.{value_eqb}
use libviprs_bench.Samples.Libraries.{insert}

abbrev pub zeros : ℕ → List ℕ
zeros zero = []
zeros (suc n) = 0 ∷ zeros n

pub zeros-bytes : (n : ℕ) → All (λ b. b < 256) (zeros n)
zeros-bytes zero = tt
zeros-bytes (suc n) = (omega arith, zeros-bytes n)

abbrev pub hash : Hash
hash = record {
  sha256 = λ bytes. zeros 32;
  length-sha256 = λ bytes. refl;
  sha256-bytes = λ bytes. zeros-bytes 32;
}

abbrev pub fmt : Fmt
fmt = record {
  display = λ v. "0.5";
  lower_exp = λ v. "5e-1";
  debug = λ s. s;
  display_number = λ n. "0";
}

abbrev pub digests_value : Digests → Value
digests_value d = object (
    entry "cells" (string d.cells) (
      entry "runners" (string d.runners) (
        entry "measurements" (string d.measurements) (entry "document" (string d.document) empty))))

abbrev text_at : Value → String → Option String
text_at v k = get v k >>? as_str

abbrev pub digests_of : Value → Option Digests
digests_of v = text_at v "cells" >>? λ c. text_at v "runners" >>? λ r.
    text_at v "measurements" >>? λ m. text_at v "document" >>? λ d.
    some (record { cells = c; runners = r; measurements = m; document = d })

pub digests_of-value : (d : Digests) → digests_of (digests_value d) ≡ some d
unfolding lookup
digests_of-value d = refl

pub document_of-value : (d : Digests) → get (digests_value d) "document" ≡ some (string d.document)
unfolding lookup
document_of-value d = refl

abbrev pub seals : Seals
seals = record {
  to_value = digests_value;
  from_value = digests_of;
  from_value-to_value = digests_of-value;
  get_document-to_value = document_of-value;
}

abbrev field : String → Value → Map → Map
field = entry

abbrev raw_cell : Value
raw_cell = object (
    entry "backend" (string "fs")
      (entry "outcome" (string "ok") (entry "attested" (bool true) empty)))

abbrev invocation : Value
invocation = object (
    entry "argv" (array (items (string "bench" ∷ []))) (
      entry "command" (string "bench") (
        entry "cwd" (string "/bench") (
          entry "resolved"
            (object (
              entry "scenarios" (array (items (string "cold" ∷ [])))
                (entry "reps" (number (unsigned 3)) empty)))
            empty))))

abbrev provenance : Value
provenance = object (
    entry "os" (string "linux") (
      entry "arch" (string "x86_64") (
        entry "cpuModel" (string "cpu") (
          entry "commit" (string "abc") (
            entry "dirty" (bool false) (
              entry "library"
                (object (entry "commit" (string "def") (entry "dirty" (bool false) empty)))
                (entry "emulated" (bool false) (
                  entry "node"
                    (object (
                      entry "debugAssertions" (bool false)
                        (entry "buildProfile" (string "release") empty)))
                    (entry "filesystem"
                      (object (
                        entry "fsType" (string "ext4")
                          (entry "scratchDir" (string "/scratch") empty)))
                      (entry "invocation" invocation empty))))))))))

abbrev pub raw_map : Map
raw_map = entry "startedAt" (string "2026-09-13T21:45:00.123Z") (
    entry "provenance" provenance (
      entry "measurement" (object (entry "reps" (number (unsigned 3)) empty))
        (entry "cells" (array (items (raw_cell ∷ []))) empty)))

abbrev pub now : String
now = "2026-09-14T00:00:00Z"

-- The digest that the constant hash gives to every text.
abbrev pub digest_zero : String
digest_zero = "sha256:0000000000000000000000000000000000000000000000000000000000000000"

abbrev pub digests_zero : Digests
digests_zero = record {
  cells = digest_zero;
  runners = digest_zero;
  measurements = digest_zero;
  document = digest_zero;
}

abbrev pub filed_map : Map
filed_map =
    insert "integrity" (digests_value digests_zero) (insert "combinedAt" (string now) raw_map)

abbrev pub run_name : String
run_name = "20260913T214500Z-def-00000000"

abbrev pub rows : Value
rows = array (
    items (
      object (
        entry "runId" (string run_name) (
          entry "documentDigest" (string digest_zero) (
            entry "startedAt" (string "2026-09-13T21:45:00.123Z") (
              entry "libraryCommit" (string "def") (
                entry "emulated" (bool false) (
                  entry "fsType" (string "ext4")
                    (entry "file" (string (run_name & ".json")) empty)))))))
      ∷ []))

abbrev pub is_unique : Map → Bool
is_unique empty = true
is_unique (entry k v m) = not (has_key k m) && is_unique m

is_unique-IsUnique : (m : Map) → is_unique m ≡ true → IsUnique m
is_unique-IsUnique empty h = tt
is_unique-IsUnique (entry k v m) h = ground (arith, is_unique-IsUnique m)

pub raw_map-IsUnique : IsUnique raw_map
raw_map-IsUnique = is_unique-IsUnique raw_map refl

pub filed_map-IsUnique : IsUnique filed_map
filed_map-IsUnique = is_unique-IsUnique filed_map refl

abbrev pub from_str : String → Result String Value
from_str s =
    if str_eq s "raw"
    then ok (object raw_map)
    else if str_eq s "filed\n"
    then ok (object filed_map)
    else if str_eq s "rows\n"
    then ok rows
    else err "expected value"

abbrev pub to_string_pretty : Value → Result String String
to_string_pretty v =
    if value_eqb v (object filed_map)
    then ok "filed"
    else if value_eqb v rows
    then ok "rows"
    else err "too much"

abbrev pub rows_of : Result String Value → Result String (List Value)
rows_of (ok (array vs)) = ok (elements vs)
rows_of (ok v) = err "invalid type"
rows_of (err e) = err e

elements-items : (vs : List Value) → elements (items vs) ≡ vs
elements-items [] = refl
elements-items (v ∷ vs) = ap (λ r. v ∷ r) (elements-items vs)

pub rows_of-items :
    (s : String) (vs : List Value)
    → from_str s ≡ ok (array (items vs))
    → rows_of (from_str s) ≡ ok vs
rows_of-items s vs h = rw h (ap ok (elements-items vs))

-- ===== src/Canonical.antt =====
-- src/storage/integrity.rs, the canonical JSON string: `canonical_json`, `write_canonical`,
-- `sorted_keys`, `canonical_number`, `canonical_string`. A text is written as its `char`s.
pub mod Maps
use libviprs_bench.Base.{
  ℕ, zero, suc, ◌+◌, ◌*◌, ◌/◌, ◌%◌, ◌-◌, Bool, true, false, not, ◌&&◌, String, List, [], ◌∷◌, ◌++◌,
  ◌≡◌, refl, Option, none, some, ltb, leb, ◌==◌, if◌then◌else◌, codes, show, is_ascii, ◌&◌, str_eq,
  Result, ok, err, ◌>>=◌,
}
use libviprs_bench.Json.{
  Number, unsigned, negative, float, Value, null, bool, number, string, array, object, Items, nil,
  cons, Map, empty, entry, keys,
}
use libviprs_bench.Json.Keys.{sort_keys}
use libviprs_bench.Format.{Fmt, abs, is_finite, is_zero, is_whole, show_i64}

abbrev pub Chars : Type 0
Chars = List ℕ

-- The last field of `out_of_plain_range` is the bits of the float.
pub data CanonicalError : Type 0 where
  non_finite : String → CanonicalError
  out_of_plain_range : String → ℕ → CanonicalError
  unsafe_integer : String → String → CanonicalError
  non_ascii_key : String → String → CanonicalError
  malformed : String → CanonicalError

abbrev pub Canonical : Type 0 → Type 0
Canonical = Result CanonicalError

abbrev pub max_safe_integer : ℕ
max_safe_integer = 9_007_199_254_740_991

-- The bits of 1e-6, of 1e21 and of `MAX_SAFE_INTEGER as f64`.
abbrev pub smallest_plain_magnitude : ℕ
smallest_plain_magnitude = 0x3eb0c6f7a0b5ed8d

abbrev pub largest_plain_magnitude : ℕ
largest_plain_magnitude = 0x444b1ae4d6e2ef50

abbrev max_safe_float : ℕ
max_safe_float = 0x433fffffffffffff

hex_digit : ℕ → ℕ
hex_digit d = if ltb d 10 then b'0' + d else b'a' + (d - 10)

-- `{:04x}`
hex4 : ℕ → Chars
unfolding hex_digit
hex4 c =
    hex_digit (c / 4096 % 16)
    ∷ hex_digit (c / 256 % 16)
    ∷ hex_digit (c / 16 % 16)
    ∷ hex_digit (c % 16)
    ∷ []

escape : ℕ → Chars
unfolding hex4
escape c =
    if c == b'"'
    then codes "\\\""
    else if c == b'\\'
    then codes "\\\\"
    else if c == 8
    then codes "\\b"
    else if c == 12
    then codes "\\f"
    else if c == 10
    then codes "\\n"
    else if c == 13
    then codes "\\r"
    else if c == 9
    then codes "\\t"
    else if ltb c 0x20
    then codes "\\u" ++ hex4 c
    else c ∷ []

escapes : Chars → Chars
unfolding escape
escapes [] = []
escapes (c ∷ s) = escape c ++ escapes s

unfoldable pub canonical_string : String → Chars
unfolding escapes
canonical_string s = b'"' ∷ (escapes (codes s) ++ b'"' ∷ [])

check_ascii : String → List String → Canonical (Unit {0})
check_ascii path [] = ok tt
check_ascii path (k ∷ ks) =
    if not (is_ascii k) then err (non_ascii_key path k) else check_ascii path ks

unfoldable pub sorted_keys : Map → String → Canonical (List String)
unfolding check_ascii sort_keys
sorted_keys m path = do _ ← check_ascii path (keys m); ok (sort_keys (keys m))

module _ (fmt : Fmt) where
  unfoldable pub canonical_number : Number → String → Canonical Chars
  unfolding is_finite is_zero is_whole show_i64 show
  canonical_number (unsigned u) path =
      if ltb max_safe_integer u then err (unsafe_integer path (show u)) else ok (codes (show u))
  canonical_number (negative n) path =
      if ltb max_safe_integer (n + 1)
      then err (unsafe_integer path ("-" & show (n + 1)))
      else ok (codes ("-" & show (n + 1)))
  canonical_number (float v) path =
      if not (is_finite v)
      then err (non_finite path)
      else if is_zero v
      then ok (codes "0")
      else if not (leb smallest_plain_magnitude (abs v) && ltb (abs v) largest_plain_magnitude)
      then err (out_of_plain_range path v)
      else if is_whole v && leb (abs v) max_safe_float
      then ok (codes (show_i64 v))
      else ok (codes (fmt.display v))

  -- The loop of an object over its keys: `first` says that no comma stands before the next entry.
  unfoldable pub write_entries : Bool → List String → (String → Canonical Chars) → Canonical Chars
  write_entries first [] write = ok []
  write_entries first (k ∷ ks) write = do
    v ← write k
    rest ← write_entries false ks write
    ok ((if first then [] else codes ",") ++ canonical_string k ++ codes ":" ++ v ++ rest)

  unfoldable pub write_object : Map → String → (String → Canonical Chars) → Canonical Chars
  unfolding write_entries sorted_keys canonical_string
  write_object m path write = do
    ks ← sorted_keys m path
    body ← write_entries true ks write
    ok (codes "{" ++ body ++ codes "}")

  unfoldable mutual
    pub write_canonical : Value → String → Canonical Chars
    write_canonical null path = ok (codes "null")
    write_canonical (bool true) path = ok (codes "true")
    write_canonical (bool false) path = ok (codes "false")
    write_canonical (number n) path = canonical_number n path
    write_canonical (string s) path = ok (canonical_string s)
    write_canonical (array vs) path = do
      body ← write_items 0 vs path
      ok (codes "[" ++ body ++ codes "]")
    write_canonical (object m) path = write_object m path (λ k. write_at m k path)

    -- The loop of an array, from its item of index `i` on.
    write_items : ℕ → Items → String → Canonical Chars
    write_items i nil path = ok []
    write_items i (cons v vs) path = do
      item ← write_canonical v (path & "[" & show i & "]")
      rest ← write_items (i + 1) vs path
      ok ((if i == 0 then [] else codes ",") ++ item ++ rest)

    -- `write_canonical(&map[key], …)`, where a missing key panics and is never asked for.
    write_at : Map → String → String → Canonical Chars
    write_at empty k path = err (malformed k)
    write_at (entry j v m) k path =
        if str_eq j k then write_canonical v (path & "." & k) else write_at m k path

  unfoldable pub canonical_json : Value → Canonical Chars
  canonical_json v = write_canonical v "$"

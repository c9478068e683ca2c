-- ===== src/Base/Text.antt =====
-- Text: code points, the order of texts that Rust's `Ord` on `str` has, decimals, joins, trims.
use Prim.Native.Nat.{ℕ}
use Prim.Native.Char.{Char, code}
use Prim.Native.String
use Prim.Native.String.{String}
use mathlib.Core.Path.{◌≡◌, refl, ap, ap₂}
use mathlib.Core.Bool.{Bool, true, false, ◌&&◌, ◌||◌}
use mathlib.Core.List.{List, [], ◌∷◌, ◌++◌}
use native.Mathlib.Omega.{arith}
use text.Mathlib.TextEquality.{Char-path}
use text.Mathlib.TextLemmas.{nil-append, cons-append}
use libviprs_bench.Base.Tests.{ltb, leb, ◌==◌, if◌then◌else◌}

infixr 65 ◌&◌
-- `format!("{a}{b}")`
abbrev pub ◌&◌ : String → String → String
a & b = String.◌++◌ a b

-- The `char`s of a text, as numbers.
abbrev pub codes : String → List ℕ
codes String.[] = []
codes (String.◌∷◌ c s) = code c ∷ codes s

pub codes_injective : (s t : String) → codes s ≡ codes t → s ≡ t
codes_injective String.[] String.[] h = refl
codes_injective String.[] (String.◌∷◌ d t) h = cc
codes_injective (String.◌∷◌ c s) String.[] h = cc
codes_injective (String.◌∷◌ c s) (String.◌∷◌ d t) h =
    ap₂ String.◌∷◌ (Char-path c d (cc)) (codes_injective s t (cc))

pub codes-append : (s t : String) → codes (s & t) ≡ codes s ++ codes t
codes-append String.[] t = rw nil-append
codes-append (String.◌∷◌ c s) t = rw cons-append (ap (λ r. code c ∷ r) (codes-append s t))

-- Code point order, which is the byte order of UTF-8 and so Rust's `Ord` on `str`.
abbrev pub codes_ltb : List ℕ → List ℕ → Bool
codes_ltb [] [] = false
codes_ltb [] (d ∷ t) = true
codes_ltb (c ∷ s) [] = false
codes_ltb (c ∷ s) (d ∷ t) = if ltb c d then true else if ltb d c then false else codes_ltb s t

abbrev pub str_ltb : String → String → Bool
str_ltb s t = codes_ltb (codes s) (codes t)

codes_ltb_irrefl : (s : List ℕ) → codes_ltb s s ≡ false
codes_ltb_irrefl [] = refl
codes_ltb_irrefl (c ∷ s) = ground (arith, codes_ltb_irrefl s)

codes_ltb_trans :
    (s t u : List ℕ) → codes_ltb s t ≡ true → codes_ltb t u ≡ true → codes_ltb s u ≡ true
codes_ltb_trans [] [] u h k = cc
codes_ltb_trans [] (d ∷ t) [] h k = cc
codes_ltb_trans [] (d ∷ t) (e ∷ u) h k = refl
codes_ltb_trans (c ∷ s) [] u h k = cc
codes_ltb_trans (c ∷ s) (d ∷ t) [] h k = cc
codes_ltb_trans (c ∷ s) (d ∷ t) (e ∷ u) h k = ground (arith, codes_ltb_trans s t u)

codes_ltb_total : (s t : List ℕ) → codes_ltb s t ≡ false → codes_ltb t s ≡ false → s ≡ t
codes_ltb_total [] [] h k = refl
codes_ltb_total [] (d ∷ t) h k = cc
codes_ltb_total (c ∷ s) [] h k = cc
codes_ltb_total (c ∷ s) (d ∷ t) h k = ground (arith, codes_ltb_total s t)

pub str_ltb_irrefl : (s : String) → str_ltb s s ≡ false
str_ltb_irrefl s = codes_ltb_irrefl (codes s)

pub str_ltb_trans : (s t u : String) → str_ltb s t ≡ true → str_ltb t u ≡ true → str_ltb s u ≡ true
str_ltb_trans s t u = codes_ltb_trans (codes s) (codes t) (codes u)

pub str_ltb_total : (s t : String) → str_ltb s t ≡ false → str_ltb t s ≡ false → s ≡ t
str_ltb_total s t h k = codes_injective s t (codes_ltb_total (codes s) (codes t) h k)

-- `str::join`
abbrev pub join : String → List String → String
join sep [] = ""
join sep (s ∷ []) = s
join sep (s ∷ t ∷ r) = s & sep & join sep (t ∷ r)

-- `char::is_whitespace`: Unicode's White_Space
unfoldable pub is_whitespace : ℕ → Bool
is_whitespace c =
    (leb 9 c && leb c 13)
    || c == 32
    || c == 0x85
    || c == 0xa0
    || c == 0x1680
    || (leb 0x2000 c && leb c 0x200a)
    || c == 0x2028
    || c == 0x2029
    || c == 0x202f
    || c == 0x205f
    || c == 0x3000

-- `str::trim_start`
unfoldable pub trim_start : String → String
trim_start String.[] = ""
trim_start (String.◌∷◌ c s) =
    let rest = trim_start s in if is_whitespace (code c) then rest else String.◌∷◌ c s

keep_before : Char → String → String
keep_before c String.[] = if is_whitespace (code c) then "" else String.◌∷◌ c String.[]
keep_before c (String.◌∷◌ d s) = String.◌∷◌ c (String.◌∷◌ d s)

trim_end : String → String
trim_end String.[] = ""
trim_end (String.◌∷◌ c s) = keep_before c (trim_end s)

-- `str::trim`
unfoldable pub trim : String → String
unfolding trim_start trim_end keep_before is_whitespace
trim s = trim_end (trim_start s)

trim_test : trim "  a b " ≡ "a b"
unfolding trim
trim_test = refl

abbrev pub is_ascii_alphanumeric : ℕ → Bool
is_ascii_alphanumeric c =
    (leb b'0' c && leb c b'9') || (leb b'A' c && leb c b'Z') || (leb b'a' c && leb c b'z')

-- `s.chars().filter(p).collect()`
unfoldable pub filter_chars : (ℕ → Bool) → String → String
filter_chars p String.[] = ""
filter_chars p (String.◌∷◌ c s) =
    let rest = filter_chars p s in if p (code c) then String.◌∷◌ c rest else rest

-- `s.chars().map(f).collect()`
unfoldable pub map_chars : (Char → Char) → String → String
map_chars f String.[] = ""
map_chars f (String.◌∷◌ c s) = String.◌∷◌ (f c) (map_chars f s)

-- `str::is_ascii`
unfoldable pub is_ascii : String → Bool
is_ascii String.[] = true
is_ascii (String.◌∷◌ c s) = ltb (code c) 128 && is_ascii s

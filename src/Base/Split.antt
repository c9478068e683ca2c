-- ===== src/Base/Split.antt =====
-- `str::split` and `str::split_once` at a character.
use Prim.Native.Nat.{ℕ, ◌<◌}
use Prim.Native.Char.{Char, code}
use Prim.Native.String.{String}
use mathlib.Core.Path.{◌≡◌, refl}
use mathlib.Core.Logic.{◌≢◌, ◌⊎◌}
use mathlib.Core.Option
use mathlib.Core.Option.{Option, none, some}
use mathlib.Core.List.{List, [], ◌∷◌}
use native.Mathlib.Omega.{arith}
use text.Mathlib.TextLemmas.{nil-append, cons-append}
use libviprs_bench.Base.Tests.{◌==◌, if◌then◌else◌}
use libviprs_bench.Base.Lists.{All, All-append}
use libviprs_bench.Base.Text.{codes, codes-append, is_whitespace, ◌&◌}
use text.Mathlib.Text.{◌==◌ as str_eq}
use libviprs_bench.Base.Decimal.{show, IsDigit, show-IsDigit}

push_front : Char → List String → List String
push_front c [] = String.◌∷◌ c String.[] ∷ []
push_front c (w ∷ ws) = String.◌∷◌ c w ∷ ws

-- `s.split(at)`
unfoldable pub split_on : ℕ → String → List String
unfolding push_front
split_on at String.[] = String.[] ∷ []
split_on at (String.◌∷◌ c s) =
    let rest = split_on at s in if code c == at then String.[] ∷ rest else push_front c rest

push_first : Char → String × String → String × String
push_first c (a, b) = (String.◌∷◌ c a, b)

-- `s.split_once(at)`
unfoldable pub split_once : ℕ → String → Option (String × String)
unfolding push_first
split_once at String.[] = none
split_once at (String.◌∷◌ c s) =
    let rest = Option.map (push_first c) (split_once at s) in
    if code c == at then some (String.[], s) else rest

split_once-append :
    (c : Char) (a b : String)
    → All (λ d. d ≢ code c) (codes a)
    → split_once (code c) (a & String.◌∷◌ c b) ≡ some (a, b)
unfolding split_once
split_once-append c String.[] b h = rw nil-append (ground arith)
split_once-append c (String.◌∷◌ d a) b (p, h) =
    rw cons-append (ground (arith, split_once-append c a b h))

-- The character stands nowhere in the text.
abbrev pub Avoids : Char → List ℕ → Type 0
Avoids c s = All (λ d. d ≢ code c) s

-- Where the character does not stand in the first part, the split is after it.
pub split_once-at :
    (c : Char) (a b : String)
    → Avoids c (codes a)
    → split_once (code c) (a & String.◌∷◌ c "" & b) ≡ some (a, b)
split_once-at c a b h = rw (cons-append, nil-append) (split_once-append c a b h)

pub Avoids-append :
    (c : Char) (a b : String) → Avoids c (codes a) → Avoids c (codes b) → Avoids c (codes (a & b))
Avoids-append c a b h k = rw codes-append (All-append (λ d. d ≢ code c) (codes a) (codes b) h k)

Avoids-of_digits :
    (c : Char) (s : List ℕ) → (code c < b'0') ⊎ (b'9' < code c) → All IsDigit s → Avoids c s
Avoids-of_digits c [] h a = tt
Avoids-of_digits c (d ∷ s) h (p, a) = (omega arith, Avoids-of_digits c s h a)

-- A number holds no character that is no digit.
pub Avoids-show : (c : Char) (n : ℕ) → (code c < b'0') ⊎ (b'9' < code c) → Avoids c (codes (show n))
Avoids-show c n h = Avoids-of_digits c (codes (show n)) h (show-IsDigit n)

-- The text after a prefix, where it has it.
unfoldable pub after_prefix : List ℕ → String → Option String
after_prefix [] s = some s
after_prefix (c ∷ prefix) String.[] = none
after_prefix (c ∷ prefix) (String.◌∷◌ d s) =
    let rest = after_prefix prefix s in if c == code d then rest else none

abbrev or_whole : String → Option String → String
or_whole s none = s
or_whole s (some rest) = rest

-- `s.strip_prefix(prefix).unwrap_or(s)`
unfoldable pub strip_prefix : String → String → String
unfolding after_prefix
strip_prefix prefix s = or_whole s (after_prefix (codes prefix) s)

-- `s.split_whitespace()`: what stands between whitespace, and is not empty.
words_from : String → String → List String
words_from String.[] word = if str_eq word "" then [] else word ∷ []
words_from (String.◌∷◌ c s) word =
    let inside = words_from s (word & String.◌∷◌ c "") in
    let outside = words_from s "" in
    if is_whitespace (code c) then if str_eq word "" then outside else word ∷ outside else inside

unfoldable pub words : String → List String
unfolding words_from is_whitespace
words s = words_from s ""

words_test : words " 0.5  1.25\t2\n" ≡ "0.5" ∷ "1.25" ∷ "2" ∷ []
unfolding words
words_test = refl

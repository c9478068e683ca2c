-- ===== src/Base/Lines.antt =====
-- `str::lines`, and tests on the characters of a text that ignore their case.
use Prim.Native.Nat.{ℕ, ◌+◌}
use Prim.Native.Char.{code}
use Prim.Native.String.{String}
use mathlib.Core.Path.{◌≡◌, refl}
use mathlib.Core.Bool.{Bool, true, false, ◌&&◌, ◌||◌}
use mathlib.Core.List.{List, [], ◌∷◌, map}
use text.Mathlib.Text.{◌==◌ as str_eq}
use libviprs_bench.Base.Tests.{leb, ◌==◌, if◌then◌else◌}
use libviprs_bench.Base.Text.{codes}
use libviprs_bench.Base.Split.{split_on}

-- A terminated line without the carriage return at its end.
without_return : String → String
without_return String.[] = ""
without_return (String.◌∷◌ c s) =
    let rest = without_return s in if code c == 13 && str_eq s "" then "" else String.◌∷◌ c rest

-- The last piece ends no line, and is none where it is empty.
terminated : List String → List String
unfolding without_return
terminated [] = []
terminated (s ∷ []) = if str_eq s "" then [] else s ∷ []
terminated (s ∷ t ∷ rest) = without_return s ∷ terminated (t ∷ rest)

-- `s.lines()`
unfoldable pub lines : String → List String
unfolding terminated
lines s = terminated (split_on 10 s)

lines_test : lines "a\r\nb\n\nc\r" ≡ "a" ∷ "b" ∷ "" ∷ "c\r" ∷ []
unfolding lines split_on
lines_test = refl

-- `char::to_ascii_lowercase`
abbrev pub lower : ℕ → ℕ
lower c = if leb b'A' c && leb c b'Z' then c + 32 else c

abbrev pub lowered : String → List ℕ
lowered s = map lower (codes s)

abbrev pub same_chars : List ℕ → List ℕ → Bool
same_chars [] [] = true
same_chars [] (d ∷ t) = false
same_chars (c ∷ s) [] = false
same_chars (c ∷ s) (d ∷ t) = c == d && same_chars s t

-- `s.starts_with(t)`
abbrev pub begins : List ℕ → List ℕ → Bool
begins s [] = true
begins [] (d ∷ t) = false
begins (c ∷ s) (d ∷ t) = c == d && begins s t

module _ {ℓ} {A : Type ℓ} where
  -- `Iterator::any`
  abbrev pub any : (A → Bool) → List A → Bool
  any p [] = false
  any p (x ∷ xs) = p x || any p xs

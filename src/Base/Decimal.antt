-- ===== src/Base/Decimal.antt =====
-- Decimals: `to_string` of an unsigned integer and `str::parse` back, with the round trip.
use Prim.Native.Nat.{ℕ, zero, suc, ◌+◌, ◌-◌, ◌*◌, ◌/◌, ◌%◌, ◌≤◌, ◌<◌}
use Prim.Native.Char.{Char, code}
use Prim.Native.String.{String}
use mathlib.Core.Path.{◌≡◌, refl, ◌∙◌}
use mathlib.Core.Logic.{inl, inr}
use mathlib.Core.Bool.{false, ◌||◌}
use mathlib.Core.Option.{Option, none, some}
use native.Mathlib.Omega.{arith}
use libviprs_bench.Base.Tests.{ltb, ◌==◌, if◌then◌else◌, Bool-cases}
use libviprs_bench.Base.Lists.{All}
use libviprs_bench.Base.Text.{codes}

digit : ℕ → Char
digit zero = "0"
digit (suc zero) = "1"
digit (suc (suc zero)) = "2"
digit (suc (suc (suc zero))) = "3"
digit (suc (suc (suc (suc zero)))) = "4"
digit (suc (suc (suc (suc (suc zero))))) = "5"
digit (suc (suc (suc (suc (suc (suc zero)))))) = "6"
digit (suc (suc (suc (suc (suc (suc (suc zero))))))) = "7"
digit (suc (suc (suc (suc (suc (suc (suc (suc zero)))))))) = "8"
digit _ = "9"

-- Each digit takes one round, so `n` rounds are enough for `n`.
show_from : ℕ → ℕ → String → String
show_from zero n out = out
show_from (suc fuel) n out =
    let rest = show_from fuel (n / 10) (String.◌∷◌ (digit (n % 10)) out) in
    if n == 0 then out else rest

-- `to_string` of an unsigned integer
unfoldable pub show : ℕ → String
unfolding show_from digit
show n = if n == 0 then "0" else show_from n n ""

-- The digits of a text behind `n`; above `most` the number does not fit its type.
scan : ℕ → String → ℕ → Option ℕ
scan most String.[] n = some n
scan most (String.◌∷◌ c s) n =
    if ltb (code c) b'0' || ltb b'9' (code c) || ltb most (n * 10 + (code c - b'0'))
    then none
    else scan most s (n * 10 + (code c - b'0'))

scan_some : ℕ → String → Option ℕ
scan_some most String.[] = none
scan_some most (String.◌∷◌ c s) = scan most (String.◌∷◌ c s) 0

-- `str::parse` into an unsigned integer of largest value `most`: one `+` may stand in front.
unfoldable pub parse_uint : ℕ → String → Option ℕ
unfolding scan scan_some
parse_uint most String.[] = none
parse_uint most (String.◌∷◌ c s) =
    if code c == b'+' then scan_some most s else scan most (String.◌∷◌ c s) 0

parse_test :
    (parse_uint 4294967295 "4294967295" ≡ some 4294967295)
    × (parse_uint 4294967295 "4294967296" ≡ none)
    × (parse_uint 4294967295 "+7" ≡ some 7)
    × (parse_uint 4294967295 "+" ≡ none)
    × (parse_uint 4294967295 "" ≡ none)
unfolding parse_uint
parse_test = (refl, refl, refl, refl, refl)

code-digit : (d : ℕ) → d < 10 → code (digit d) ≡ b'0' + d
unfolding digit
code-digit zero h = refl
code-digit (suc zero) h = refl
code-digit (suc (suc zero)) h = refl
code-digit (suc (suc (suc zero))) h = refl
code-digit (suc (suc (suc (suc zero)))) h = refl
code-digit (suc (suc (suc (suc (suc zero))))) h = refl
code-digit (suc (suc (suc (suc (suc (suc zero)))))) h = refl
code-digit (suc (suc (suc (suc (suc (suc (suc zero))))))) h = refl
code-digit (suc (suc (suc (suc (suc (suc (suc (suc zero)))))))) h = refl
code-digit (suc (suc (suc (suc (suc (suc (suc (suc (suc d))))))))) h = omega arith

-- Reading the last digit of `n` after the digits before it gives `n`.
scan_last :
    (most n : ℕ) (out : String)
    → n ≤ most
    → scan most (String.◌∷◌ (digit (n % 10)) out) (n / 10) ≡ scan most out n
unfolding scan
scan_last most n out h =
    let e : code (digit (n % 10)) ≡ b'0' + n % 10 = code-digit (n % 10) (omega arith) in
    let back : n / 10 * 10 + (b'0' + n % 10 - b'0') ≡ n = omega arith in rw (e, back) (ground arith)

scan-show_from :
    (most fuel n : ℕ) (out : String)
    → n ≤ fuel
    → n ≤ most
    → scan most (show_from fuel n out) 0 ≡ scan most out n
unfolding show_from
scan-show_from most zero zero out h k = refl
scan-show_from most zero (suc n) out h k = absurd (omega arith)
scan-show_from most (suc fuel) n out h k = elim (Bool-cases (n == 0)) [
  | inl done ↦ let e : n ≡ 0 = ground arith in rw e
  | inr more ↦ rw more (
      scan-show_from most fuel (n / 10) (String.◌∷◌ (digit (n % 10)) out) (ground arith)
        (ground arith)
      ∙ scan_last most n out k)
]

-- What `scan` reads as a positive number starts with a digit, so `parse_uint` reads the same.
parse_uint-scan :
    (most n : ℕ) (s : String) → scan most s 0 ≡ some (suc n) → parse_uint most s ≡ some (suc n)
unfolding parse_uint
parse_uint-scan most n String.[] h = ground arith
parse_uint-scan most n (String.◌∷◌ c s) h = ground arith

show-suc : (n : ℕ) → show (suc n) ≡ show_from (suc n) (suc n) ""
unfolding show
show-suc n = let e : (suc n == 0) ≡ false = ground arith in rw e

-- What is printed is read back.
pub parse_uint-show : (most n : ℕ) → n ≤ most → parse_uint most (show n) ≡ some n
unfolding scan
parse_uint-show most zero h = unfold parse_uint show in ground arith
parse_uint-show most (suc n) h =
    rw show-suc (parse_uint-scan most n _ (scan-show_from most (suc n) (suc n) "" (omega arith) h))

abbrev pub IsDigit : ℕ → Type 0
IsDigit c = (b'0' ≤ c) × (c ≤ b'9')

show_from-IsDigit :
    (fuel n : ℕ) (out : String)
    → All IsDigit (codes out)
    → All IsDigit (codes (show_from fuel n out))
unfolding show_from
show_from-IsDigit zero n out h = h
show_from-IsDigit (suc fuel) n out h = elim (Bool-cases (n == 0)) [
  | inl done ↦ rw done h
  | inr more ↦ rw more (show_from-IsDigit fuel (n / 10) _ (omega (arith, code-digit (n % 10)), h))
]

pub show-IsDigit : (n : ℕ) → All IsDigit (codes (show n))
show-IsDigit zero = unfold show in (omega arith, tt)
show-IsDigit (suc n) = rw show-suc (show_from-IsDigit (suc n) (suc n) "" tt)

-- ===== src/Sha256.antt =====
-- src/sha256.rs: the hexadecimal form of a digest, in one shot and over a stream of pieces.
pub mod Hex
use libviprs_bench.Base.{
  ℕ, zero, suc, ◌==◌, ◌/◌, ◌%◌, ◌*◌, ◌+◌, ◌-◌, String, List, [], ◌∷◌, ◌++◌, ◌≡◌, ltb, if◌then◌else◌,
  ◌&◌, get_or, get_elem?,
}
use libviprs_bench.Crates.{Hash}

abbrev hex_digits : List String
hex_digits =
    "0" ∷ "1" ∷ "2" ∷ "3" ∷ "4" ∷ "5" ∷ "6" ∷ "7" ∷ "8" ∷ "9" ∷ "a" ∷ "b" ∷ "c" ∷ "d" ∷ "e" ∷ "f"
    ∷ []

-- `char::from_digit(d, 16)` of a nibble
unfoldable pub from_digit : ℕ → String
from_digit d = get_or hex_digits d "0"

-- `byte >> 4` and `byte & 0x0f`
unfoldable pub hex : List ℕ → String
unfolding from_digit
hex [] = ""
hex (byte ∷ bytes) = from_digit (byte / 16) & from_digit (byte % 16) & hex bytes

-- `{:#x}` of an unsigned integer: a digit takes one round, so `n` rounds are enough for `n`.
hex_onto : ℕ → ℕ → String → String
unfolding from_digit
hex_onto zero n out = out
hex_onto (suc rounds) n out =
    let rest = hex_onto rounds (n / 16) (from_digit (n % 16) & out) in if n == 0 then out else rest

unfoldable pub hex_text : ℕ → String
unfolding hex_onto
hex_text n = "0x" & (if n == 0 then "0" else hex_onto n n "")

-- `str::as_bytes`: the UTF-8 of each `char`.
utf8_char : ℕ → List ℕ
utf8_char c =
    if ltb c 0x80
    then c ∷ []
    else if ltb c 0x800
    then (0xc0 + c / 64) ∷ (0x80 + c % 64) ∷ []
    else if ltb c 0x10000
    then (0xe0 + c / 4096) ∷ (0x80 + c / 64 % 64) ∷ (0x80 + c % 64) ∷ []
    else (0xf0 + c / 262144) ∷ (0x80 + c / 4096 % 64) ∷ (0x80 + c / 64 % 64) ∷ (0x80 + c % 64) ∷ []

unfoldable pub as_bytes : List ℕ → List ℕ
unfolding utf8_char
as_bytes [] = []
as_bytes (c ∷ s) = utf8_char c ++ as_bytes s

unfoldable pub sha256_hex : Hash → List ℕ → String
unfolding hex
sha256_hex hash bytes = hex (hash.sha256 bytes)

-- The hasher of the sha2 crate.
pub record Hasher : Type 1 where
  pub State : Type 0
  pub initial : State
  pub absorb : State → List ℕ → State
  pub finalize : State → List ℕ

-- `Sha256Stream`
module _ (h : Hasher) where
  open h use {State, initial, absorb, finalize}

  unfoldable pub new : State
  new = initial

  unfoldable pub update : State → List ℕ → State
  update s bytes = absorb s bytes

  unfoldable pub finish : State → String
  unfolding hex
  finish s = hex (finalize s)

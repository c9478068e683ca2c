-- ===== src/Sha256/Hex.antt =====
-- The form of the digests.
use libviprs_bench.Base.{
  ℕ, ◌/◌, ◌%◌, ◌*◌, String, List, [], ◌∷◌, ◌++◌, ◌≡◌, refl, ap, ◌∙◌, arith, ◌&◌, codes,
  codes-append, All, All-append, All-get_or, length, length-append, leb, true, ◌&&◌, ◌||◌,
}
use libviprs_bench.Crates.{Hash}
use libviprs_bench.Sha256.{hex_digits, from_digit, hex, sha256_hex}

-- `0` to `9` and `a` to `f`
abbrev pub IsLowerHex : ℕ → Type 0
IsLowerHex c = ((leb b'0' c && leb c b'9') || (leb b'a' c && leb c b'f')) ≡ true

-- One digit of the table.
abbrev IsHexDigit : String → Type 0
IsHexDigit s = (length (codes s) ≡ 1) × All IsLowerHex (codes s)

from_digit-IsHexDigit : (d : ℕ) → IsHexDigit (from_digit d)
unfolding from_digit
from_digit-IsHexDigit d = All-get_or IsHexDigit hex_digits d "0" (ground arith) (ground arith)

hex_lem :
    (bytes : List ℕ)
    → (length (codes (hex bytes)) ≡ 2 * length bytes) × All IsLowerHex (codes (hex bytes))
unfolding hex
hex_lem [] = (refl, tt)
hex_lem (byte ∷ bytes) =
    let hi = from_digit (byte / 16) in
    let lo = from_digit (byte % 16) in
    let (n, hs) = hex_lem bytes in
    let (one, hd) = from_digit-IsHexDigit (byte / 16) in
    let (one', ld) = from_digit-IsHexDigit (byte % 16) in
    let e : codes (hi & lo & hex bytes) ≡ codes hi ++ (codes lo ++ codes (hex bytes)) =
      codes-append hi (lo & hex bytes) ∙ ap (λ r. codes hi ++ r) (codes-append lo (hex bytes)) in
    rw e (
      omega (
        arith,
        length-append (codes hi) (codes lo ++ codes (hex bytes)),
        length-append (codes lo) (codes (hex bytes)),
      ),
      All-append IsLowerHex (codes hi) _ hd (All-append IsLowerHex (codes lo) _ ld hs),
    )

-- Whatever the bytes, their SHA-256 is printed as 64 lowercase hexadecimal characters.
pub sha256_hex_form :
    (hash : Hash) (bytes : List ℕ)
    → (length (codes (sha256_hex hash bytes)) ≡ 64) × All IsLowerHex (codes (sha256_hex hash bytes))
unfolding sha256_hex
sha256_hex_form hash bytes =
    let (n, h) = hex_lem (hash.sha256 bytes) in (omega (arith, hash.length-sha256 bytes), h)

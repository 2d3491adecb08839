-- ===== src/Hex.antt =====
-- include/hvax/util/hex.hpp: hexadecimal text for digests and perceptual hashes. A text is the
-- list of its character codes, and a byte is a number below 256.
pub mod RoundTrip
mod Tests
use hvax.Prelude.{
  ℕ, zero, suc, ◌+◌, ◌-◌, ◌*◌, ◌/◌, ◌%◌, ◌^◌, Bool, true, false, ◌&&◌, Option, none, some, List, [],
  ◌∷◌, length, replicate, ltb, leb, ◌==◌, if◌then◌else◌,
}

pub hex_nibble : ℕ → ℕ
hex_nibble v = if ltb v 10 then b'0' + v else b'a' + (v - 10)

pub to_hex : List ℕ → List ℕ
to_hex [] = []
to_hex (b ∷ bs) = hex_nibble (b / 16) ∷ hex_nibble (b % 16) ∷ to_hex bs

-- The digits of `value` from position n - 1 down to 0.
pub hex_digits : ℕ → ℕ → List ℕ
hex_digits zero value = []
hex_digits (suc n) value = hex_nibble ((value / 16 ^ n) % 16) ∷ hex_digits n value

pub to_hex64 : ℕ → List ℕ
to_hex64 value = hex_digits 16 value

-- The value of a digit of either case.
pub nibble : ℕ → Option ℕ
nibble c =
    if leb b'0' c && leb c b'9'
    then some (c - b'0')
    else if leb b'a' c && leb c b'f'
    then some (c - b'a' + 10)
    else if leb b'A' c && leb c b'F'
    then some (c - b'A' + 10)
    else none

-- The loop of `hex64_from_string`: the shift drops what leaves the 64-bit word, and the four low
-- bits that it frees take the digit.
pub hex64_loop : ℕ → List ℕ → Option ℕ
hex64_loop parsed [] = some parsed
hex64_loop parsed (c ∷ rest) = elim (nibble c) [
  | none ↦ none
  | some d ↦ hex64_loop ((parsed * 16) % 2 ^ 64 + d) rest
]

pub hex64_from_string : List ℕ → Option ℕ
unfolding hex64_loop
hex64_from_string value = if length value == 16 then hex64_loop 0 value else none

-- The digit of `sha_from_hex`, which reads any other character as 0.
pub nibble_or_zero : ℕ → ℕ
nibble_or_zero c = elim (nibble c) [ none ↦ 0 | some d ↦ d ]

-- `n` bytes from the front of the text.
pub bytes_or_zero : ℕ → List ℕ → List ℕ
bytes_or_zero zero s = []
bytes_or_zero (suc n) (h ∷ l ∷ s) = (nibble_or_zero h * 16 + nibble_or_zero l) ∷ bytes_or_zero n s
bytes_or_zero (suc n) _ = replicate (suc n) 0

pub sha_from_hex : List ℕ → List ℕ
unfolding bytes_or_zero
sha_from_hex s = if ltb (length s) 64 then replicate 32 0 else bytes_or_zero 32 s

pub read_bytes : ℕ → List ℕ → Option (List ℕ)
read_bytes zero s = some []
read_bytes (suc n) (h ∷ l ∷ s) = elim (nibble h) [
  | none ↦ none
  | some high ↦ elim (nibble l) [
    | none ↦ none
    | some low ↦ elim (read_bytes n s) [ none ↦ none | some bs ↦ some ((high * 16 + low) ∷ bs) ]
  ]
]
read_bytes (suc n) _ = none

pub sha256_from_string : List ℕ → Option (List ℕ)
unfolding read_bytes
sha256_from_string value = if length value == 64 then read_bytes 32 value else none

-- ===== src/Hex/RoundTrip.antt =====
-- Printing and reading of include/hvax/util/hex.hpp are inverse to one another, up to the case of
-- the digits.
use hvax.Prelude.{
  ℕ, zero, suc, ◌+◌, ◌*◌, ◌/◌, ◌%◌, ◌^◌, ◌<◌, ◌≡◌, refl, List, [], ◌∷◌, map, some, arith, All,
  length, if◌then◌else◌, Option-cases, Bool-cases, ==_iff, inl, inr, subst, ◌∙◌, leb, ◌==◌, ◌&&◌,
}
use native.Mathlib.Nat.{div-one, div-eq_of_lt, div-div-eq-div-mul, div-le_self, pow-suc}
use hvax.Hex.{
  hex_nibble, to_hex, hex_digits, to_hex64, nibble, hex64_loop, hex64_from_string, read_bytes,
  sha256_from_string, nibble_or_zero, bytes_or_zero, sha_from_hex,
}

nibble-hex_nibble : (v : ℕ) → v < 16 → nibble (hex_nibble v) ≡ some v
unfolding nibble hex_nibble
nibble-hex_nibble v h = ground arith

abbrev pub IsByte : ℕ → Type 0
IsByte b = b < 256

read_bytes-to_hex : (bs : List ℕ) → All IsByte bs → read_bytes (length bs) (to_hex bs) ≡ some bs
unfolding read_bytes to_hex
read_bytes-to_hex [] h = refl
read_bytes-to_hex (b ∷ bs) h =
    ground (arith, nibble-hex_nibble (b / 16), nibble-hex_nibble (b % 16), read_bytes-to_hex bs h.1)

length-to_hex : (bs : List ℕ) → length (to_hex bs) ≡ 2 * length bs
unfolding to_hex
length-to_hex [] = refl
length-to_hex (b ∷ bs) = omega (arith, length-to_hex bs)

-- Reading the printed digits of a 32-byte digest gives the digest back.
pub sha256_from_string-to_hex :
    (sha : List ℕ) → length sha ≡ 32 → All IsByte sha → sha256_from_string (to_hex sha) ≡ some sha
unfolding sha256_from_string
sha256_from_string-to_hex sha n h =
    rw (length-to_hex sha, n)
      (subst (λ k. read_bytes k (to_hex sha) ≡ some sha) n (read_bytes-to_hex sha h))

-- Lower case for the letters A to Z.
abbrev pub to_lower : ℕ → ℕ
to_lower c = if leb b'A' c && leb c b'Z' then c + 32 else c

hex_nibble-nibble : (c d : ℕ) → nibble c ≡ some d → (hex_nibble d ≡ to_lower c) × (d < 16)
unfolding nibble hex_nibble
hex_nibble-nibble c d h = ground arith

-- What `n` read bytes are: in range, and printed as the text that was read, in lower case.
abbrev Reads : ℕ → List ℕ → List ℕ → Type 0
Reads n s bs =
    (length bs ≡ n) × All IsByte bs × (to_hex bs ≡ map to_lower s) × (bytes_or_zero n s ≡ bs)

Reads-step :
    (c d high low n : ℕ) (s bs tail : List ℕ)
    → nibble c ≡ some high
    → nibble d ≡ some low
    → (high * 16 + low) ∷ tail ≡ bs
    → Reads n s tail
    → Reads (suc n) (c ∷ d ∷ s) bs
unfolding to_hex bytes_or_zero nibble_or_zero
Reads-step c d high low n s bs tail e e' b r =
    ground (arith, hex_nibble-nibble c high e, hex_nibble-nibble d low e', e, e', b)

read_bytes-Reads :
    (n : ℕ) (s bs : List ℕ) → length s ≡ 2 * n → read_bytes n s ≡ some bs → Reads n s bs
unfolding read_bytes to_hex bytes_or_zero nibble_or_zero
read_bytes-Reads zero [] bs l h = ground arith
read_bytes-Reads zero (c ∷ s) bs l h = absurd (omega arith)
read_bytes-Reads (suc n) [] bs l h = cc
read_bytes-Reads (suc n) (c ∷ []) bs l h = cc
read_bytes-Reads (suc n) (c ∷ d ∷ s) bs l h = elim (Option-cases (nibble c)) [
  | inl e ↦ ground (arith, e)
  | inr (high, e) ↦ elim (Option-cases (nibble d)) [
    | inl e' ↦ ground (arith, e, e')
    | inr (low, e') ↦ elim (Option-cases (read_bytes n s)) [
      | inl r ↦ ground (arith, e, e', r)
      | inr (tail, r) ↦
          Reads-step c d high low n s bs tail e e' (ground (arith, e, e', r))
            (read_bytes-Reads n s tail (omega arith) r)
    ]
  ]
]

-- What the strict reader accepts are 64 digits; the bytes are in range, print as the text in lower
-- case, and are what the lenient reader returns too.
pub sha256_from_string_sound :
    (s sha : List ℕ)
    → sha256_from_string s ≡ some sha
    → (length s ≡ 64)
      × (length sha ≡ 32)
      × All IsByte sha
      × (to_hex sha ≡ map to_lower s)
      × (sha_from_hex s ≡ sha)
unfolding sha256_from_string sha_from_hex
sha256_from_string_sound s sha h = elim (Bool-cases (length s == 64)) [
  | inl full ↦
      let l : length s ≡ 64 = (==_iff (length s) 64).0 full in
      let r = read_bytes-Reads 32 s sha (omega arith) (rw full at h) in (l, r.0, r.1, r.2, rw l r.3)
  | inr other ↦ absurd (cc (rw other at h))
]

hex64_loop_step :
    (p c d : ℕ) (rest : List ℕ)
    → nibble c ≡ some d
    → hex64_loop p (c ∷ rest) ≡ hex64_loop ((p * 16) % 2 ^ 64 + d) rest
unfolding hex64_loop
hex64_loop_step p c d rest e = rw (e, hex64_loop)

-- No digit that is shifted out of a word was set, so the word comes back digit by digit.
hex64_loop-hex_digits : (n v : ℕ) → v < 2 ^ 64 → hex64_loop (v / 16 ^ n) (hex_digits n v) ≡ some v
unfolding hex64_loop hex_digits
hex64_loop-hex_digits zero v h = rw (div-one v)
hex64_loop-hex_digits (suc n) v h =
    hex64_loop_step (v / 16 ^ suc n) _ ((v / 16 ^ n) % 16) (hex_digits n v)
      (nibble-hex_nibble ((v / 16 ^ n) % 16) (omega arith))
    ∙ rw shifted (hex64_loop-hex_digits n v h)
  where
    shifted : ((v / 16 ^ suc n) * 16) % 2 ^ 64 + (v / 16 ^ n) % 16 ≡ v / 16 ^ n
    shifted =
        rw (pow-suc 16 n, ← div-div-eq-div-mul v (16 ^ n) 16)
          (omega (arith, div-le_self v (16 ^ n)))

length-hex_digits : (n v : ℕ) → length (hex_digits n v) ≡ n
unfolding hex_digits
length-hex_digits zero v = refl
length-hex_digits (suc n) v = omega (arith, length-hex_digits n v)

-- Reading the 16 printed digits of a 64-bit word gives the word back.
pub hex64_from_string-to_hex64 : (v : ℕ) → v < 2 ^ 64 → hex64_from_string (to_hex64 v) ≡ some v
unfolding hex64_from_string to_hex64
hex64_from_string-to_hex64 v h = rw (length-hex_digits 16 v) (
    subst (λ p. hex64_loop p (hex_digits 16 v) ≡ some v) (div-eq_of_lt h)
      (hex64_loop-hex_digits 16 v h))

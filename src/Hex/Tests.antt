-- ===== src/Hex/Tests.antt =====
-- Texts of digests and of hashes (include/hvax/util/hex.hpp).
use hvax.Prelude.{ℕ, ◌≡◌, refl, List, replicate, All, map, length, arith}
use hvax.Hex.{to_hex, sha_from_hex}
use hvax.Hex.RoundTrip.{IsByte, to_lower, sha256_from_string-to_hex, sha256_from_string_sound}

abbrev digest : List ℕ
digest = replicate 32 171

sha256_from_string_sound_example :
    (length (to_hex digest) ≡ 64)
    × (length digest ≡ 32)
    × All IsByte digest
    × (to_hex digest ≡ map to_lower (to_hex digest))
    × (sha_from_hex (to_hex digest) ≡ digest)
sha256_from_string_sound_example =
    sha256_from_string_sound (to_hex digest) digest
      (sha256_from_string-to_hex digest refl (ground arith))

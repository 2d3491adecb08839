-- ===== src/Scan/Tests.antt =====
-- A scan of five rows for the two best, of which row 1 is skipped.
use hvax.Prelude.{ℕ, ◌*◌, ◌≤◌, ◌<◌, ◌≡◌, ◌⊎◌, refl, Bool, true, false, All, length, arith, ◌==◌}
use hvax.Scan.{topk_generic}
use hvax.Scan.Sound.{IsHit, count_row, topk_generic_sound}
use hvax.Scan.Best.{IsOrder, AtLeast, Descending, topk_generic_best}
use hvax.Examples.{hundredths}

abbrev skips_one : ℕ → Bool
skips_one i = i == 1

abbrev tens : ℕ → ℕ
tens i = i * 10

all_numbers : IsOrder hundredths (λ x. true)
all_numbers = record {
  le_of_lt = λ h. ground (arith, h);
  le_of_not_lt = λ p q h. ground (arith, h);
  le_trans = λ p q. ground (arith, p, q);
}

topk_generic_sound_example :
    let out = topk_generic hundredths 5 2 skips_one 10 tens in
    All (IsHit hundredths 2 skips_one 10 tens 5) out
    × (length out ≤ 2)
    × ((r : ℕ) → count_row hundredths r out ≤ 1)
topk_generic_sound_example = topk_generic_sound hundredths 2 skips_one 10 tens 5

topk_generic_best_example :
    let out = topk_generic hundredths 5 2 skips_one 10 tens in
    Descending hundredths (λ x. true) all_numbers out
    × ((r : ℕ)
        → r < 5
        → skips_one r ≡ false
        → hundredths.lt (tens r) 10 ≡ false
        → (0 < count_row hundredths r out)
          ⊎ ((length out ≡ 2) × AtLeast hundredths (λ x. true) all_numbers (tens r) out))
topk_generic_best_example =
    topk_generic_best hundredths (λ x. true) all_numbers 2 skips_one 10 tens (λ i. refl) 5

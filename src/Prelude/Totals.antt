-- ===== src/Prelude/Totals.antt =====
-- Lists of numbers by how often each number stands in them.
use Prim.Native.Nat.{ℕ, zero, suc, ◌+◌, ◌≤◌, ◌<◌}
use mathlib.Core.Path.{◌≡◌, refl, sym, ◌∙◌}
use mathlib.Core.List.{List, [], ◌∷◌}
use native.Mathlib.Omega.{arith}
use hvax.Prelude.Tests.{leb, ◌==◌, if◌then◌else◌}
use hvax.Prelude.Lists.{length}
use hvax.Prelude.Cells.{count}

-- The sum of f over the numbers below `n`.
abbrev pub total : (ℕ → ℕ) → ℕ → ℕ
total f zero = 0
total f (suc n) = f n + total f n

total_cong : (f g : ℕ → ℕ) (n : ℕ) → ((r : ℕ) → r < n → f r ≡ g r) → total f n ≡ total g n
total_cong f g zero h = refl
total_cong f g (suc n) h =
    omega (arith, h n (omega arith), total_cong f g n (λ r k. h r (omega (arith, k))))

total_le : (f : ℕ → ℕ) (n : ℕ) → ((r : ℕ) → r < n → f r ≤ 1) → total f n ≤ n
total_le f zero h = omega arith
total_le f (suc n) h =
    omega (arith, h n (omega arith), total_le f n (λ r k. h r (omega (arith, k))))

total_add : (f g : ℕ → ℕ) (n : ℕ) → total (λ r. f r + g r) n ≡ total f n + total g n
total_add f g zero = omega arith
total_add f g (suc n) = omega (arith, total_add f g n)

total_one : (x n : ℕ) → total (λ r. if x == r then 1 else 0) n ≡ (if leb (suc x) n then 1 else 0)
total_one x zero = ground arith
total_one x (suc n) = ground (arith, total_one x n)

total_none : (n : ℕ) → total (λ r. 0) n ≡ 0
total_none zero = refl
total_none (suc n) = omega (arith, total_none n)

length-total :
    (xs : List ℕ) (n : ℕ)
    → ((r : ℕ) → n ≤ r → count r xs ≡ 0)
    → length xs ≡ total (λ r. count r xs) n
length-total [] n h = sym (total_none n)
length-total (x ∷ xs) n h = ground (
  arith,
  h x,
  total_one x n,
  total_add (λ r. if x == r then 1 else 0) (λ r. count r xs) n,
  length-total xs n (λ (r : ℕ) (k : n ≤ r). ground (arith, h r, k)),
)

-- Lists that have each number equally often are equally long.
pub length-same :
    (xs ys : List ℕ) (n : ℕ)
    → ((r : ℕ) → count r xs ≡ count r ys)
    → ((r : ℕ) → n ≤ r → count r ys ≡ 0)
    → length xs ≡ length ys
length-same xs ys n same none_above =
    length-total xs n (λ r k. same r ∙ none_above r k)
    ∙ total_cong (λ r. count r xs) (λ r. count r ys) n (λ r k. same r)
    ∙ sym (length-total ys n none_above)

-- Numbers below `n`, none twice, are at most `n`.
pub length-le :
    (xs : List ℕ) (n : ℕ)
    → ((r : ℕ) → count r xs ≤ 1)
    → ((r : ℕ) → n ≤ r → count r xs ≡ 0)
    → length xs ≤ n
length-le xs n once none_above =
    omega (arith, length-total xs n none_above, total_le (λ r. count r xs) n (λ r k. once r))

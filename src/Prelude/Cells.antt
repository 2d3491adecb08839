-- ===== src/Prelude/Cells.antt =====
-- A std::vector as its size and its cells. A read outside the size is undefined in the source and
-- reads some cell here, so the theorems speak of indices below the size.
use Prim.Native.Nat.{ℕ, ◌+◌}
use mathlib.Core.Path.{◌≡◌}
use mathlib.Core.List.{List, [], ◌∷◌, ◌++◌}
use native.Mathlib.Omega.{arith}
use hvax.Prelude.Tests.{◌==◌, if◌then◌else◌}

-- A function that differs from `f` at `i` alone.
abbrev pub update {ℓ} : {A : Type ℓ} → (ℕ → A) → ℕ → A → ℕ → A
update f i v j = if j == i then v else f j

pub record Table {ℓ} (A : Type ℓ) : Type ℓ where
  pub size : ℕ
  pub at : ℕ → A

module _ {ℓ} {A : Type ℓ} where
  -- vector(n, v), assign(n, v)
  abbrev pub filled : ℕ → A → Table A
  filled n v = record { size = n; at = λ _. v }

  -- push_back
  abbrev pub push : Table A → A → Table A
  push t v = record { size = t.size + 1; at = update t.at t.size v }

  -- t[i] = v
  abbrev pub put : Table A → ℕ → A → Table A
  put t i v = record t { at = update t.at i v }

-- std::remove and erase: every copy of `x` goes.
abbrev pub erase : ℕ → List ℕ → List ℕ
erase x [] = []
erase x (y ∷ ys) = let rest = erase x ys in if y == x then rest else y ∷ rest

-- How often `x` stands in a list.
abbrev pub count : ℕ → List ℕ → ℕ
count x [] = 0
count x (y ∷ ys) = (if y == x then 1 else 0) + count x ys

pub count-erase :
    (x r : ℕ) (ys : List ℕ) → count x (erase r ys) ≡ (if x == r then 0 else count x ys)
count-erase x r [] = ground arith
count-erase x r (y ∷ ys) = ground (arith, count-erase x r ys)

pub count-append : (x : ℕ) (ys zs : List ℕ) → count x (ys ++ zs) ≡ count x ys + count x zs
count-append x [] zs = ground arith
count-append x (y ∷ ys) zs = ground (arith, count-append x ys zs)

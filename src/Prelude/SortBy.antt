-- ===== src/Prelude/SortBy.antt =====
-- std::sort and std::unique by a comparison: an insertion sort, and one entry of each run of equals;
-- and the page of a list from an offset on.
pub mod Keep
pub mod Unique
use Prim.Native.Nat.{ℕ, zero, suc}
use mathlib.Core.Bool.{Bool, true, false}
use mathlib.Core.List.{List, [], ◌∷◌}
use hvax.Prelude.Tests.{if◌then◌else◌}
use hvax.Prelude.Lists.{take}

module _ {A : Type 0} (before : A → A → Bool) where
  unfoldable pub insert_by : A → List A → List A
  insert_by x [] = x ∷ []
  insert_by x (y ∷ ys) = let rest = insert_by x ys in if before y x then y ∷ rest else x ∷ y ∷ ys

  unfoldable pub sort_by : List A → List A
  unfolding insert_by
  sort_by [] = []
  sort_by (x ∷ xs) = insert_by x (sort_by xs)

module _ {A : Type 0} (same : A → A → Bool) where
  -- The entries that do not equal the one before, the first one being `x`.
  unfoldable pub unique_by_after : A → List A → List A
  unique_by_after x [] = []
  unique_by_after x (y ∷ ys) =
      let rest = unique_by_after y ys in if same x y then rest else y ∷ rest

  unfoldable pub unique_by : List A → List A
  unfolding unique_by_after
  unique_by [] = []
  unique_by (x ∷ xs) = x ∷ unique_by_after x xs

module _ {A : Type 0} where
  abbrev pub drop : ℕ → List A → List A
  drop zero xs = xs
  drop (suc n) [] = []
  drop (suc n) (x ∷ xs) = drop n xs

  -- `for (i = offset; i < xs.size() && out.size() < limit; ++i) out.push_back(xs[i])`
  abbrev pub page : ℕ → ℕ → List A → List A
  page offset limit xs = take limit (drop offset xs)

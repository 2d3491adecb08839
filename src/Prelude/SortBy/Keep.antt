-- ===== src/Prelude/SortBy/Keep.antt =====
-- What holds of all entries holds of all after a sort, of a page, and of the entries kept.
use Prim.Native.Nat.{ℕ, zero, suc, ◌≤◌}
use mathlib.Core.Path.{◌≡◌, refl, ap}
use mathlib.Core.Bool.{Bool, true, false}
use mathlib.Core.List.{List, [], ◌∷◌}
use native.Mathlib.Omega.{arith}
use mathlib.Core.Logic.{inl, inr}
use hvax.Prelude.Tests.{if◌then◌else◌, Bool-cases}
use hvax.Prelude.Lists.{All, length, take, take-All}
use hvax.Prelude.Cells.{count}
use hvax.Prelude.SortBy.{insert_by, sort_by, unique_by_after, unique_by, drop, page}

module _ {A : Type 0} (P : A → Type 0) (before : A → A → Bool) where
  insert_by-All : (x : A) (ys : List A) → P x → All P ys → All P (insert_by before x ys)
  unfolding insert_by
  insert_by-All x [] h k = (h, tt)
  insert_by-All x (y ∷ ys) h k = go (before y x) (insert_by-All x ys h k.1)
    where
      go :
          (b : Bool)
          → All P (insert_by before x ys)
          → All P (if b then y ∷ insert_by before x ys else x ∷ y ∷ ys)
      go true rest = (k.0, rest)
      go false rest = (h, k)

  pub sort_by-All : (xs : List A) → All P xs → All P (sort_by before xs)
  unfolding sort_by
  sort_by-All [] h = tt
  sort_by-All (x ∷ xs) h = insert_by-All x (sort_by before xs) h.0 (sort_by-All xs h.1)

module _ {A : Type 0} (P : A → Type 0) where
  drop-All : (n : ℕ) (xs : List A) → All P xs → All P (drop n xs)
  drop-All zero xs h = h
  drop-All (suc n) [] h = tt
  drop-All (suc n) (x ∷ xs) h = drop-All n xs h.1

  pub page-All : (offset limit : ℕ) (xs : List A) → All P xs → All P (page offset limit xs)
  page-All offset limit xs h = take-All P limit (drop offset xs) (drop-All offset xs h)

pub length-take_le : {A : Type 0} (n : ℕ) (xs : List A) → length (take n xs) ≤ n
length-take_le zero xs = omega arith
length-take_le (suc n) [] = omega arith
length-take_le (suc n) (x ∷ xs) = omega (arith, length-take_le n xs)

pub take_all : {A : Type 0} (n : ℕ) (xs : List A) → length xs ≤ n → take n xs ≡ xs
take_all zero [] h = refl
take_all zero (x ∷ xs) h = ground (arith, h)
take_all (suc n) [] h = refl
take_all (suc n) (x ∷ xs) h = ap (◌∷◌ x) (take_all n xs (omega (arith, h)))

module _ {A : Type 0} (before : A → A → Bool) where
  length-insert_by : (x : A) (ys : List A) → length (insert_by before x ys) ≡ suc (length ys)
  unfolding insert_by
  length-insert_by x [] = refl
  length-insert_by x (y ∷ ys) = ground (arith, length-insert_by x ys)

  pub length-sort_by : (xs : List A) → length (sort_by before xs) ≡ length xs
  unfolding sort_by
  length-sort_by [] = refl
  length-sort_by (x ∷ xs) = omega (arith, length-sort_by xs, length-insert_by x (sort_by before xs))

module _ (before : ℕ → ℕ → Bool) (n : ℕ) where
  count-insert_by : (x : ℕ) (ys : List ℕ) → count n (insert_by before x ys) ≡ count n (x ∷ ys)
  unfolding insert_by
  count-insert_by x [] = refl
  count-insert_by x (y ∷ ys) = ground (arith, count-insert_by x ys)

  pub count-sort_by : (xs : List ℕ) → count n (sort_by before xs) ≡ count n xs
  unfolding sort_by
  count-sort_by [] = refl
  count-sort_by (x ∷ xs) = ground (arith, count-sort_by xs, count-insert_by x (sort_by before xs))

module _ {A : Type 0} (P : A → Type 0) (same : A → A → Bool) where
  unique_by_after-All : (x : A) (ys : List A) → All P ys → All P (unique_by_after same x ys)
  unfolding unique_by_after
  unique_by_after-All x [] h = tt
  unique_by_after-All x (y ∷ ys) h = elim (Bool-cases (same x y)) [
    | inl equal ↦ rw equal (unique_by_after-All y ys h.1)
    | inr other ↦ rw other (h.0, unique_by_after-All y ys h.1)
  ]

  pub unique_by-All : (xs : List A) → All P xs → All P (unique_by same xs)
  unfolding unique_by
  unique_by-All [] h = tt
  unique_by-All (x ∷ xs) h = (h.0, unique_by_after-All x xs h.1)

pub All-imp :
    {A : Type 0} (P Q : A → Type 0) → ((x : A) → P x → Q x) → (xs : List A) → All P xs → All Q xs
All-imp P Q f [] h = tt
All-imp P Q f (x ∷ xs) h = (f x h.0, All-imp P Q f xs h.1)

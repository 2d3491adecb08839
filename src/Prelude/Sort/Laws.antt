-- ===== src/Prelude/Sort/Laws.antt =====
-- A sorted list without repetition holds what the list held, each entry once and in order.
use Prim.Native.Nat.{ℕ, ◌+◌, ◌≤◌, ◌<◌}
use mathlib.Core.Path.{◌≡◌}
use mathlib.Core.List.{List, [], ◌∷◌}
use native.Mathlib.Omega.{arith}
use hvax.Prelude.Tests.{ltb, ◌==◌, if◌then◌else◌}
use hvax.Prelude.Cells.{count}
use hvax.Prelude.Sort.{insert_sorted, sort, unique_after, unique}

-- Every entry is above `x` and below the next ones.
abbrev pub Rising : ℕ → List ℕ → Type 0
Rising x [] = Unit
Rising x (y ∷ ys) = (x < y) × Rising y ys

abbrev pub Climbing : ℕ → List ℕ → Type 0
Climbing x [] = Unit
Climbing x (y ∷ ys) = (x ≤ y) × Climbing y ys

abbrev pub IsSorted : List ℕ → Type 0
IsSorted [] = Unit
IsSorted (x ∷ xs) = Climbing x xs

abbrev pub IsRising : List ℕ → Type 0
IsRising [] = Unit
IsRising (x ∷ xs) = Rising x xs

pub count-insert_sorted :
    (r x : ℕ) (ys : List ℕ) → count r (insert_sorted x ys) ≡ (if x == r then 1 else 0) + count r ys
unfolding insert_sorted
count-insert_sorted r x [] = ground arith
count-insert_sorted r x (y ∷ ys) = ground (arith, count-insert_sorted r x ys)

pub count-sort : (r : ℕ) (xs : List ℕ) → count r (sort xs) ≡ count r xs
unfolding sort
count-sort r [] = ground arith
count-sort r (x ∷ xs) = ground (arith, count-sort r xs, count-insert_sorted r x (sort xs))

insert_sorted-Climbing :
    (b x : ℕ) (ys : List ℕ) → b ≤ x → Climbing b ys → Climbing b (insert_sorted x ys)
unfolding insert_sorted
insert_sorted-Climbing b x [] le h = (le, tt)
insert_sorted-Climbing b x (y ∷ ys) le h = ground (arith, le, h, insert_sorted-Climbing y x ys)

insert_sorted-IsSorted : (x : ℕ) (ys : List ℕ) → IsSorted ys → IsSorted (insert_sorted x ys)
unfolding insert_sorted
insert_sorted-IsSorted x [] h = tt
insert_sorted-IsSorted x (y ∷ ys) h = ground (arith, h, insert_sorted-Climbing y x ys)

pub sort-IsSorted : (xs : List ℕ) → IsSorted (sort xs)
unfolding sort
sort-IsSorted [] = tt
sort-IsSorted (x ∷ xs) = insert_sorted-IsSorted x (sort xs) (sort-IsSorted xs)

unique_after-Rising : (x : ℕ) (ys : List ℕ) → Climbing x ys → Rising x (unique_after x ys)
unfolding unique_after
unique_after-Rising x [] h = tt
unique_after-Rising x (y ∷ ys) h = ground (arith, h, unique_after-Rising y ys)

pub unique-IsRising : (xs : List ℕ) → IsRising (unique (sort xs))
unique-IsRising xs = go (sort xs) (sort-IsSorted xs)
  where
    go : (ys : List ℕ) → IsSorted ys → IsRising (unique ys)
    go [] h = unfold unique in tt
    go (y ∷ ys) h = unfold unique in unique_after-Rising y ys h

-- Nothing at or below `x` stands in a list that rises from `x`, and each entry stands there once.
pub count-Rising :
    (x r : ℕ) (ys : List ℕ) → Rising x ys → (count r ys ≤ 1) × ((0 < count r ys) → x < r)
count-Rising x r [] h = ground arith
count-Rising x r (y ∷ ys) h = ground (arith, h, count-Rising y r ys)

pub count-IsRising : (r : ℕ) (ys : List ℕ) → IsRising ys → count r ys ≤ 1
count-IsRising r [] h = ground arith
count-IsRising r (y ∷ ys) h = ground (arith, count-Rising y r ys h)

count-unique_after :
    (x r : ℕ) (ys : List ℕ) → ltb 0 (count r (x ∷ unique_after x ys)) ≡ ltb 0 (count r (x ∷ ys))
unfolding unique_after
count-unique_after x r [] = ground arith
count-unique_after x r (y ∷ ys) = ground (arith, count-unique_after y r ys)

-- The sorted list without repetition has the entries of the list.
pub count-unique : (r : ℕ) (xs : List ℕ) → ltb 0 (count r (unique (sort xs))) ≡ ltb 0 (count r xs)
count-unique r xs = ground (arith, go (sort xs), count-sort r xs)
  where
    go : (ys : List ℕ) → ltb 0 (count r (unique ys)) ≡ ltb 0 (count r ys)
    go [] = unfold unique in ground arith
    go (y ∷ ys) = unfold unique in count-unique_after y r ys

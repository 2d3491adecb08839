-- ===== src/Prelude/SortBy/Unique.antt =====
-- A list sorted by a strict order, of which one of each run of equals is kept, has each entry once.
use Prim.Native.Nat.{ℕ, ◌+◌}
use mathlib.Core.Path.{◌≡◌, refl}
use mathlib.Core.Bool.{Bool, true, false, ◌||◌}
use mathlib.Core.List.{List, [], ◌∷◌}
use native.Mathlib.Omega.{arith}
use hvax.Prelude.Tests.{if◌then◌else◌, Bool-cases}
use mathlib.Core.Logic.{inl, inr}
use hvax.Prelude.SortBy.{insert_by, sort_by, unique_by_after, unique_by}

-- A strict order whose ties are the equals.
pub record IsOrder {A : Type 0} (before same : A → A → Bool) : Type 0 where
  pub trans : (a b c : A) → before a b ≡ true → before b c ≡ true → before a c ≡ true
  pub step : (a b c : A) → same a b ≡ true → before b c ≡ true → before a c ≡ true
  pub total : (a b : A) → before b a ≡ false → same a b ≡ false → before a b ≡ true
  pub asym : (a b : A) → before a b ≡ true → before b a ≡ false
  pub strict : (a b : A) → before a b ≡ true → same a b ≡ false

module _ {A : Type 0} where
  -- How many entries pass a test, and whether any does.
  abbrev pub count_by : (A → Bool) → List A → ℕ
  count_by is [] = 0
  count_by is (x ∷ xs) = (if is x then 1 else 0) + count_by is xs

  abbrev pub any : (A → Bool) → List A → Bool
  any is [] = false
  any is (x ∷ xs) = is x || any is xs

  module _ (before same : A → A → Bool) (o : IsOrder before same) where
    abbrev Climbing : A → List A → Type 0
    Climbing x [] = Unit
    Climbing x (y ∷ ys) = (before y x ≡ false) × Climbing y ys

    abbrev IsSorted : List A → Type 0
    IsSorted [] = Unit
    IsSorted (x ∷ xs) = Climbing x xs

    abbrev pub Rising : A → List A → Type 0
    Rising x [] = Unit
    Rising x (y ∷ ys) = (before x y ≡ true) × Rising y ys

    abbrev pub IsRising : List A → Type 0
    IsRising [] = Unit
    IsRising (x ∷ xs) = Rising x xs

    insert_by-Climbing :
        (b x : A) (ys : List A)
        → before x b ≡ false
        → Climbing b ys
        → Climbing b (insert_by before x ys)
    unfolding insert_by
    insert_by-Climbing b x [] h c = (h, tt)
    insert_by-Climbing b x (y ∷ ys) h c = elim (Bool-cases (before y x)) [
      | inl first ↦ rw first (c.0, insert_by-Climbing y x ys (o.asym y x first) c.1)
      | inr later ↦ rw later (h, (later, c.1))
    ]

    insert_by-IsSorted : (x : A) (ys : List A) → IsSorted ys → IsSorted (insert_by before x ys)
    unfolding insert_by
    insert_by-IsSorted x [] c = tt
    insert_by-IsSorted x (y ∷ ys) c = elim (Bool-cases (before y x)) [
      | inl first ↦ rw first (insert_by-Climbing y x ys (o.asym y x first) c)
      | inr later ↦ rw later (later, c)
    ]

    sort_by-IsSorted : (xs : List A) → IsSorted (sort_by before xs)
    unfolding sort_by
    sort_by-IsSorted [] = tt
    sort_by-IsSorted (x ∷ xs) = insert_by-IsSorted x (sort_by before xs) (sort_by-IsSorted xs)

    Rising-step : (x y : A) (ys : List A) → same x y ≡ true → Rising y ys → Rising x ys
    Rising-step x y [] e r = tt
    Rising-step x y (z ∷ ys) e r = (o.step x y z e r.0, r.1)

    unique_by_after-Rising :
        (x : A) (ys : List A) → Climbing x ys → Rising x (unique_by_after same x ys)
    unfolding unique_by_after
    unique_by_after-Rising x [] c = tt
    unique_by_after-Rising x (y ∷ ys) c = elim (Bool-cases (same x y)) [
      | inl equal ↦
          rw equal
            (Rising-step x y (unique_by_after same y ys) equal (unique_by_after-Rising y ys c.1))
      | inr other ↦ rw other (o.total x y c.0 other, unique_by_after-Rising y ys c.1)
    ]

    pub unique_by-IsRising : (xs : List A) → IsRising (unique_by same (sort_by before xs))
    unique_by-IsRising xs = go (sort_by before xs) (sort_by-IsSorted xs)
      where
        go : (ys : List A) → IsSorted ys → IsRising (unique_by same ys)
        go [] c = unfold unique_by in tt
        go (y ∷ ys) c = unfold unique_by in unique_by_after-Rising y ys c

    Rising-before : (x y : A) (ys : List A) → before x y ≡ true → Rising y ys → Rising x ys
    Rising-before x y [] e r = tt
    Rising-before x y (z ∷ ys) e r = (o.trans x y z e r.0, r.1)

    -- The test is for one entry: equals pass it together, and what passes it is equal.
    module _ (is : A → Bool) (respects : (a b : A) → same a b ≡ true → is a ≡ is b)
        (single : (a b : A) → is a ≡ true → is b ≡ true → same a b ≡ true) where
      any-insert_by : (x : A) (ys : List A) → any is (insert_by before x ys) ≡ (is x || any is ys)
      unfolding insert_by
      any-insert_by x [] = refl
      any-insert_by x (y ∷ ys) = ground (arith, any-insert_by x ys)

      any-sort_by : (xs : List A) → any is (sort_by before xs) ≡ any is xs
      unfolding sort_by
      any-sort_by [] = refl
      any-sort_by (x ∷ xs) = ground (arith, any-sort_by xs, any-insert_by x (sort_by before xs))

      any-unique_by_after :
          (x : A) (ys : List A) → (is x || any is (unique_by_after same x ys)) ≡ (is x || any is ys)
      unfolding unique_by_after
      any-unique_by_after x [] = refl
      any-unique_by_after x (y ∷ ys) = ground (arith, any-unique_by_after y ys, respects x y)

      count_by-above : (x : A) (ys : List A) → Rising x ys → is x ≡ true → count_by is ys ≡ 0
      count_by-above x [] r e = refl
      count_by-above x (y ∷ ys) r e = ground (
        arith,
        single x y e,
        o.strict x y r.0,
        count_by-above x ys (Rising-before x y ys r.0 r.1) e,
      )

      count_by-Rising :
          (x : A) (ys : List A) → Rising x ys → count_by is ys ≡ (if any is ys then 1 else 0)
      count_by-Rising x [] r = refl
      count_by-Rising x (y ∷ ys) r =
          ground (arith, count_by-Rising y ys r.1, count_by-above y ys r.1)

      -- One entry passes the test in what is left, if any did before.
      pub count_by-unique_by :
          (xs : List A)
          → count_by is (unique_by same (sort_by before xs)) ≡ (if any is xs then 1 else 0)
      count_by-unique_by xs =
          ground (arith, go (sort_by before xs) (sort_by-IsSorted xs), any-sort_by xs)
        where
          go :
              (ys : List A)
              → IsSorted ys
              → count_by is (unique_by same ys) ≡ (if any is ys then 1 else 0)
          go [] c = unfold unique_by in refl
          go (y ∷ ys) c =
              unfold unique_by in
              (ground (
                arith,
                count_by-Rising y (unique_by_after same y ys) (unique_by_after-Rising y ys c),
                count_by-above y (unique_by_after same y ys) (unique_by_after-Rising y ys c),
                any-unique_by_after y ys,
              ))

-- ===== src/Gallery/Labels/Repeats.antt =====
-- The flag of src/store/identity.cpp on images that show one identity twice.
use hvax.Prelude.{
  ℕ, zero, suc, ◌<◌, ◌≡◌, refl, ◌∙◌, Bool, true, false, ◌&&◌, ◌||◌, List, [], ◌∷◌, ltb, ◌==◌, Table,
  sort, count, arith, Bool-cases, inl, inr,
}
use hvax.Prelude.Sort.Laws.{IsSorted, Climbing, sort-IsSorted, count-sort, count-insert_sorted}
use hvax.Prelude.Sort.{insert_sorted}
use hvax.Types.{FaceSlot, ImageSlot, has, repeat_identity, set_flag, clear_flag, slot_live}
use hvax.Gallery.Labels.{adjacent, ids_on, marked, mark_image, mark_below}

-- Some number stands in the list twice.
abbrev pub twice : List ℕ → Bool
twice [] = false
twice (x ∷ xs) = ltb 0 (count x xs) || twice xs

twice-insert_sorted : (x : ℕ) (ys : List ℕ) → twice (insert_sorted x ys) ≡ twice (x ∷ ys)
unfolding insert_sorted
twice-insert_sorted x [] = refl
twice-insert_sorted x (y ∷ ys) =
    ground (arith, twice-insert_sorted x ys, count-insert_sorted y x ys)

twice-sort : (xs : List ℕ) → twice (sort xs) ≡ twice xs
unfolding sort
twice-sort [] = refl
twice-sort (x ∷ xs) =
    ground (arith, twice-insert_sorted x (sort xs), twice-sort xs, count-sort x xs)

count-Climbing : (x y : ℕ) (ys : List ℕ) → x < y → Climbing y ys → count x ys ≡ 0
count-Climbing x y [] h c = refl
count-Climbing x y (z ∷ ys) h c =
    ground (arith, h, c.0, count-Climbing x z ys (omega (arith, h, c.0)) c.1)

adjacent-Climbing : (x : ℕ) (ys : List ℕ) → Climbing x ys → adjacent (x ∷ ys) ≡ twice (x ∷ ys)
unfolding adjacent
adjacent-Climbing x [] c = refl
adjacent-Climbing x (y ∷ ys) c = elim (Bool-cases (x == y)) [
  | inl same ↦ ground (arith, same, adjacent-Climbing y ys c.1)
  | inr other ↦ ground (
    arith,
    other,
    adjacent-Climbing y ys c.1,
    count-Climbing x y ys (ground (arith, other, c.0)) c.1,
  )
]

adjacent-IsSorted : (xs : List ℕ) → IsSorted xs → adjacent xs ≡ twice xs
unfolding adjacent
adjacent-IsSorted [] c = refl
adjacent-IsSorted (x ∷ xs) c = adjacent-Climbing x xs c

pub adjacent-sort : (xs : List ℕ) → adjacent (sort xs) ≡ twice xs
adjacent-sort xs = adjacent-IsSorted (sort xs) (sort-IsSorted xs) ∙ twice-sort xs

marked_lem :
    (w : ℕ) (repeat : Bool)
    → (has repeat_identity (marked w repeat) ≡ repeat) × (slot_live (marked w repeat) ≡ slot_live w)
unfolding marked has set_flag clear_flag slot_live
marked_lem w true = (ground arith, ground arith)
marked_lem w false = (ground arith, ground arith)

-- What marking leaves of an image, and the flag that it sets on a live one below `n`.
pub record IsMarked {F : Type 0} (faces : Table (FaceSlot F)) (lists : Table (List ℕ))
    (images images' : Table ImageSlot) (n i : ℕ) : Type 0 where
  pub size : images'.size ≡ images.size
  pub image_id : (images'.at i).image_id ≡ (images.at i).image_id
  pub sha256 : (images'.at i).sha256 ≡ (images.at i).sha256
  pub live : slot_live (images'.at i).flags ≡ slot_live (images.at i).flags
  pub repeat :
      (ltb i n && slot_live (images.at i).flags) ≡ true
      → has repeat_identity (images'.at i).flags ≡ twice (ids_on faces (lists.at i))

module _ {F : Type 0} (faces : Table (FaceSlot F)) where
  mark_image_lem :
      (rows : List ℕ) (im : ImageSlot)
      → ((mark_image faces rows im).image_id ≡ im.image_id)
        × ((mark_image faces rows im).sha256 ≡ im.sha256)
        × (slot_live (mark_image faces rows im).flags ≡ slot_live im.flags)
        × (slot_live im.flags ≡ true
            → has repeat_identity (mark_image faces rows im).flags ≡ twice (ids_on faces rows))
  unfolding mark_image
  mark_image_lem rows im = elim (Bool-cases (slot_live im.flags)) [
    | inl live ↦
        let m = marked_lem im.flags (adjacent (sort (ids_on faces rows))) in
        rw live (refl, refl, m.1 ∙ live, λ _. m.0 ∙ adjacent-sort (ids_on faces rows))
    | inr dead ↦ rw dead (refl, refl, dead, λ e. ground (arith, e))
  ]

  pub mark_below-IsMarked :
      (lists : Table (List ℕ)) (images : Table ImageSlot) (n i : ℕ)
      → IsMarked faces lists images (mark_below faces lists images n) n i
  unfolding mark_below
  mark_below-IsMarked lists images zero i = record {
    size = refl;
    image_id = refl;
    sha256 = refl;
    live = refl;
    repeat = λ e. ground (arith, e);
  }
  mark_below-IsMarked lists images (suc n) i =
      let b = mark_below-IsMarked lists images n i in
      let m = mark_image_lem (lists.at n) (images.at n) in
      record {
        size = b.size;
        image_id = ground (arith, b.image_id, m.0);
        sha256 = ground (arith, b.sha256, m.1);
        live = ground (arith, b.live, m.2);
        repeat = λ e. ground (arith, e, b.repeat, m.3);
      }

-- ===== src/Gallery/Shared/Common.antt =====
-- Which images shared_images of src/store/identity.cpp finds for two identities.
use hvax.Prelude.{
  ℕ, suc, ◌-◌, ◌≤◌, ◌<◌, ◌≡◌, refl, sym, subst, ◌∙◌, Bool, true, not, ◌&&◌, ◌||◌, List, [], ◌∷◌,
  ltb, ◌==◌, if◌then◌else◌, arith, Bool-cases, inl, inr, count, sort_by, unique_by,
}
use hvax.Prelude.SortBy.Unique.{IsOrder, count_by, any, count_by-unique_by}
use hvax.Floats.{Floats}
use hvax.Hnsw.{Usearch}
use hvax.Types.{slot_live, face_indexable}
use hvax.Gallery.Invariant.{G, IsConsistent}
use hvax.Gallery.Shared.{has_image, someone, images_with, common_images}

pub newest-IsOrder : IsOrder (λ (a b : ℕ). ltb b a) ◌==◌
newest-IsOrder = record {
  trans = λ a b c h k. ground (arith, h, k);
  step = λ a b c h k. ground (arith, h, k);
  total = λ a b h k. ground (arith, h, k);
  asym = λ a b h. ground (arith, h);
  strict = λ a b h. ground (arith, h);
}

pub count-count_by : (r : ℕ) (xs : List ℕ) → count r xs ≡ count_by (λ x. x == r) xs
count-count_by r [] = refl
count-count_by r (x ∷ xs) = ground (arith, count-count_by r xs)

-- A test that some entry passes, and one that no entry passes.
any-true : (is : ℕ → Bool) (r : ℕ) (xs : List ℕ) → 1 ≤ count r xs → is r ≡ true → any is xs ≡ true
any-true is r [] h e = ground (arith, h)
any-true is r (x ∷ xs) h e = elim (Bool-cases (x == r)) [
  | inl same ↦ ground (arith, subst (λ y. is y ≡ true) (equal same) e)
  | inr other ↦ ground (arith, any-true is r xs (ground (arith, h, other)) e)
]
  where
    equal : (x == r) ≡ true → r ≡ x
    equal same = ground (arith, same)

any-entry :
    (is : ℕ → Bool) (xs : List ℕ) → any is xs ≡ true → (r : ℕ) × ((1 ≤ count r xs) × (is r ≡ true))
any-entry is [] e = ground (arith, e)
any-entry is (x ∷ xs) e = elim (Bool-cases (is x)) [
  | inl yes_ ↦ (x, (ground arith, yes_))
  | inr no_ ↦
      let found = any-entry is xs (ground (arith, e, no_)) in
      (found.0, (ground (arith, found.1.0), found.1.1))
]

same_truth : (a b : Bool) → (a ≡ true → b ≡ true) → (b ≡ true → a ≡ true) → a ≡ b
same_truth a b f g = elim (Bool-cases a) [
  | inl p ↦ p ∙ sym (f p)
  | inr p ↦ elim (Bool-cases b) [ inl q ↦ g q ∙ sym q | inr q ↦ p ∙ sym q ]
]

module _ (fl : Floats) (us : Usearch fl.Float) (g : G fl us) where
  someone-any :
      (id : ℕ) (rows : List ℕ)
      → someone fl us g id rows ≡ any (λ o. (g.faces.at o).identity_ref == suc id) rows
  unfolding someone
  someone-any id [] = refl
  someone-any id (o ∷ rows) = ground (arith, someone-any id rows)

  here :
      (other i r : ℕ)
      → (g.faces.at r).image_id ≡ suc i
      → (has_image fl us g r
          && someone fl us g other (g.image_faces.at ((g.faces.at r).image_id - 1)))
        ≡ (ltb i g.image_faces.size && someone fl us g other (g.image_faces.at i))
  unfolding has_image
  here other i r e =
      subst
        (λ img.
          (not (img == 0 || ltb g.image_faces.size img)
            && someone fl us g other (g.image_faces.at (img - 1)))
          ≡ (ltb i g.image_faces.size && someone fl us g other (g.image_faces.at i)))
        (sym e) (ground arith)

  -- An image with a list is among the images just if a face on it is among the rows and the other
  -- identity is on it.
  pub any-images_with :
      (other i : ℕ) (rows : List ℕ)
      → any (λ img. img == suc i) (images_with fl us g other rows) ≡ (
          any (λ r. (g.faces.at r).image_id == suc i) rows
          && (ltb i g.image_faces.size && someone fl us g other (g.image_faces.at i)))
  unfolding images_with
  any-images_with other i [] = refl
  any-images_with other i (r ∷ rows) = ground (arith, any-images_with other i rows, here other i r)

  module _ (c : IsConsistent fl us g) where
    -- A member is a live face that refers to the identity.
    member_lem :
        (id r : ℕ)
        → id < g.identities.size
        → 1 ≤ count r (g.members.at id)
        → (r < g.faces.size)
          × ((g.faces.at r).identity_ref ≡ suc id)
          × (slot_live (g.faces.at r).flags ≡ true)
    unfolding face_indexable slot_live
    member_lem id r h k =
        let l = c.membership.listed id r h in
        (ground (arith, k, l), ground (arith, k, l), ground (arith, k, l, c.membership.indexable r))

    -- A face that is listed for an image is a live one of that image.
    pub on_image_lem :
        (i o : ℕ)
        → i < g.images.size
        → 1 ≤ count o (g.image_faces.at i)
        → (o < g.faces.size) × ((g.faces.at o).image_id ≡ suc i)
    on_image_lem i o h k =
        let l = c.faces.shown i o h in (ground (arith, k, l), ground (arith, k, l))

    -- A member of `id` is on the image just if the image has a face that refers to `id`.
    member-someone :
        (id i : ℕ)
        → id < g.identities.size
        → i < g.images.size
        → any (λ r. (g.faces.at r).image_id == suc i) (g.members.at id)
          ≡ someone fl us g id (g.image_faces.at i)
    member-someone id i h k =
        same_truth (any on_i (g.members.at id)) (any refers_id (g.image_faces.at i))
          (λ e.
            let found = any-entry on_i (g.members.at id) e in
            let m = member_lem id found.0 h found.1.0 in
            any-true refers_id found.0 (g.image_faces.at i)
              (ground (arith, found.1.1, m, c.faces.shown i found.0 k)) (ground (arith, m)))
          (λ e.
            let found = any-entry refers_id (g.image_faces.at i) e in
            let l = on_image_lem i found.0 k found.1.0 in
            any-true on_i found.0 (g.members.at id)
              (ground (arith, found.1.1, l, c.membership.listed id found.0 h)) (ground (arith, l)))
        ∙ sym (someone-any id (g.image_faces.at i))
      where
        on_i : ℕ → Bool
        on_i r = (g.faces.at r).image_id == suc i

        refers_id : ℕ → Bool
        refers_id o = (g.faces.at o).identity_ref == suc id

    -- In a consistent gallery the images that shared_images pages through are, each once, those that
    -- have a face of the one identity and a face of the other.
    pub common_images_lem :
        (id other i : ℕ)
        → id < g.identities.size
        → count (suc i) (common_images fl us g id other) ≡ (
            if ltb i g.images.size
              && (someone fl us g id (g.image_faces.at i)
                  && someone fl us g other (g.image_faces.at i))
            then 1
            else 0)
    unfolding common_images
    common_images_lem id other i h = ground (
      arith,
      count-count_by (suc i)
          (unique_by ◌==◌ (sort_by (λ a b. ltb b a) (images_with fl us g other (g.members.at id)))),
      count_by-unique_by (λ (a b : ℕ). ltb b a) ◌==◌ newest-IsOrder (λ x. x == suc i)
          (λ a b e. ground (arith, e)) (λ a b e e'. ground (arith, e, e'))
          (images_with fl us g other (g.members.at id)),
      any-images_with other i (g.members.at id),
      member-someone id i h,
      c.aligned.image_faces,
    )

-- ===== src/Gallery/Shared/Swap.antt =====
-- shared_images of src/store/identity.cpp, with the two identities exchanged.
use hvax.Prelude.{
  ℕ, zero, suc, ◌≤◌, ◌<◌, ◌≡◌, refl, sym, ap, ◌∙◌, Bool, true, false, not, ◌&&◌, List, [], ◌∷◌, map,
  ltb, ◌==◌, arith, Bool-cases, inl, inr, count, length, page, ℤ, pos, negsuc,
}
use hvax.Prelude.SortBy.Unique.{Rising, IsRising, any, count_by-unique_by, unique_by-IsRising}
use hvax.Floats.{Floats}
use hvax.Hnsw.{Usearch}
use hvax.Gallery.Invariant.{G, IsConsistent}
use hvax.Gallery.Identities.{identity_live}
use hvax.Gallery.Shared.{
  SharedImage, has_image, images_with, common_images, shared_image, shared_of, shared_images,
  open_identity,
}
use hvax.Gallery.Shared.Common.{newest-IsOrder, count-count_by, common_images_lem}

abbrev Falls : ℕ → List ℕ → Type 0
Falls = Rising (λ (a b : ℕ). ltb b a) ◌==◌ newest-IsOrder

abbrev IsFalling : List ℕ → Type 0
IsFalling = IsRising (λ (a b : ℕ). ltb b a) ◌==◌ newest-IsOrder

count-Falls : (x r : ℕ) (ys : List ℕ) → Falls x ys → x ≤ r → count r ys ≡ 0
count-Falls x r [] f h = refl
count-Falls x r (y ∷ ys) f h = ground (arith, f.0, h, count-Falls y r ys f.1)

IsFalling-tail : (x : ℕ) (ys : List ℕ) → Falls x ys → IsFalling ys
IsFalling-tail x [] f = tt
IsFalling-tail x (y ∷ ys) f = f.1

-- Falling lists with the same entries are the same.
falling_unique :
    (xs ys : List ℕ) → IsFalling xs → IsFalling ys → ((r : ℕ) → count r xs ≡ count r ys) → xs ≡ ys
falling_unique [] [] f f' same = refl
falling_unique [] (y ∷ ys) f f' same = ground (arith, same y)
falling_unique (x ∷ xs) [] f f' same = ground (arith, same x)
falling_unique (x ∷ xs) (y ∷ ys) f f' same =
    let head : x ≡ y =
      ground (arith, same x, same y, count-Falls x y xs f, count-Falls y x ys f') in
    ap (◌∷◌ x) (
      falling_unique xs ys (IsFalling-tail x xs f) (IsFalling-tail y ys f')
        (λ r. ground (arith, same r, head)))
    ∙ ap (λ z. z ∷ ys) head

-- The faces of the two exchanged.
abbrev pub swap : {F : Type 0} → SharedImage F → SharedImage F
swap s = record { image_id = s.image_id; faces = s.other_faces; other_faces = s.faces }

module _ (fl : Floats) (us : Usearch fl.Float) (g : G fl us) (c : IsConsistent fl us g) where
  no_image_zero :
      (other : ℕ) (rows : List ℕ) → any (λ x. x == 0) (images_with fl us g other rows) ≡ false
  unfolding images_with has_image
  no_image_zero other [] = refl
  no_image_zero other (r ∷ rows) = ground (arith, no_image_zero other rows)

  count_zero : (id other : ℕ) → count 0 (common_images fl us g id other) ≡ 0
  unfolding common_images
  count_zero id other = ground (
    arith,
    count-count_by 0 (common_images fl us g id other),
    count_by-unique_by (λ (a b : ℕ). ltb b a) ◌==◌ newest-IsOrder (λ x. x == 0)
        (λ a b e. ground (arith, e)) (λ a b e e'. ground (arith, e, e'))
        (images_with fl us g other (g.members.at id)),
    no_image_zero other (g.members.at id),
  )

  common_images-swap :
      (id other : ℕ)
      → id < g.identities.size
      → other < g.identities.size
      → common_images fl us g id other ≡ common_images fl us g other id
  common_images-swap id other h k =
      falling_unique (common_images fl us g id other) (common_images fl us g other id)
        (unfold common_images in
          (unique_by-IsRising (λ (a b : ℕ). ltb b a) ◌==◌ newest-IsOrder
            (images_with fl us g other (g.members.at id))))
        (unfold common_images in
          (unique_by-IsRising (λ (a b : ℕ). ltb b a) ◌==◌ newest-IsOrder
            (images_with fl us g id (g.members.at other))))
        same
    where
      same :
          (r : ℕ)
          → count r (common_images fl us g id other) ≡ count r (common_images fl us g other id)
      same zero = count_zero id other ∙ sym (count_zero other id)
      same (suc i) = ground (
        arith,
        common_images_lem fl us g c id other i h,
        common_images_lem fl us g c other id i k,
      )

  map-swap :
      (id other : ℕ) (imgs : List ℕ)
      → map (shared_image fl us g id other) imgs
        ≡ map swap (map (shared_image fl us g other id) imgs)
  unfolding shared_image
  map-swap id other [] = refl
  map-swap id other (img ∷ imgs) =
      ap (◌∷◌ (shared_image fl us g id other img)) (map-swap id other imgs)

  -- Both are open, and they are two.
  abbrev gate : ℕ → ℕ → Bool → Bool
  gate id other include_hidden =
      not (id == other)
      && (open_identity fl us g id include_hidden && open_identity fl us g other include_hidden)

  gate-swap :
      (id other : ℕ) (include_hidden : Bool)
      → gate id other include_hidden ≡ gate other id include_hidden
  gate-swap id other include_hidden = ground arith

  gate_lem :
      (id other : ℕ) (include_hidden : Bool)
      → gate id other include_hidden ≡ true
      → (id < g.identities.size) × (other < g.identities.size)
  unfolding open_identity identity_live
  gate_lem id other include_hidden e = (ground (arith, e), ground (arith, e))

  abbrev paged : ℕ → ℕ → ℕ → ℕ → List ℕ → List (SharedImage fl.Float) × ℕ
  paged id other offset limit imgs =
      (map (shared_image fl us g id other) (page offset limit imgs), length imgs)

  abbrev swapped : List (SharedImage fl.Float) × ℕ → List (SharedImage fl.Float) × ℕ
  swapped out = (map swap out.0, out.1)

  paged-swap :
      (id other offset limit : ℕ) (imgs : List ℕ)
      → paged id other offset limit imgs ≡ swapped (paged other id offset limit imgs)
  paged-swap id other offset limit imgs =
      ap (λ (faces : List (SharedImage fl.Float)). (faces, length imgs))
        (map-swap id other (page offset limit imgs))

  shared_of-swap :
      (id other offset limit : ℕ) (include_hidden : Bool)
      → let out = shared_of fl us g other id offset limit include_hidden in
        shared_of fl us g id other offset limit include_hidden ≡ (map swap out.0, out.1)
  unfolding shared_of
  shared_of-swap id other offset limit include_hidden =
      elim (Bool-cases (gate id other include_hidden)) [
        | inl e ↦
            let inside = gate_lem id other include_hidden e in
            let same = common_images-swap id other inside.0 inside.1 in
            rw (e, sym (gate-swap id other include_hidden) ∙ e)
              (ap (paged id other offset limit) same
                ∙ paged-swap id other offset limit (common_images fl us g other id))
        | inr e ↦ rw (e, sym (gate-swap id other include_hidden) ∙ e) refl
      ]

  -- In a consistent gallery shared_images of two identities in either order lists the same images in
  -- the same order, with the faces of the two exchanged, and gives the same total.
  pub shared_images-swap :
      (a b : ℤ) (offset limit : ℕ) (include_hidden : Bool)
      → let out = shared_images fl us g b a offset limit include_hidden in
        shared_images fl us g a b offset limit include_hidden ≡ (map swap out.0, out.1)
  unfolding shared_images
  shared_images-swap (pos a) (pos b) offset limit include_hidden =
      shared_of-swap a b offset limit include_hidden
  shared_images-swap (pos a) (negsuc b) offset limit include_hidden = refl
  shared_images-swap (negsuc a) (pos b) offset limit include_hidden = refl
  shared_images-swap (negsuc a) (negsuc b) offset limit include_hidden = refl

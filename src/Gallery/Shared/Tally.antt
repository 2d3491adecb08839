-- ===== src/Gallery/Shared/Tally.antt =====
-- The pairs of cooccurring of src/store/identity.cpp with one identity are the images of shared_images.
use hvax.Prelude.{
  ℕ, zero, suc, ◌-◌, ◌≤◌, ◌≡◌, refl, sym, ap, subst, ◌∙◌, Bool, true, false, not, ◌&&◌, ◌||◌, List,
  [], ◌∷◌, ltb, ◌==◌, if◌then◌else◌, arith, Bool-cases, inl, inr, count, length, sort_by, unique_by,
}
use hvax.Prelude.Totals.{length-same}
use hvax.Prelude.SortBy.Unique.{count_by, any, count_by-unique_by}
use hvax.Floats.{Floats}
use hvax.Hnsw.{Usearch}
use hvax.Gallery.Invariant.{G}
use hvax.Gallery.Shared.{
  pair_before, pair_same, has_image, add_other, others_on, pairs_with, someone, images_with,
  common_images,
}
use hvax.Gallery.Shared.Pairs.{pair_before-IsOrder, firsts}
use hvax.Gallery.Shared.Common.{newest-IsOrder, count-count_by}

abbrev is_pair : ℕ → ℕ → ℕ × ℕ → Bool
is_pair j img p = p.0 == j && p.1 == img

is_pair-same : (j img : ℕ) (a b : ℕ × ℕ) → pair_same a b ≡ true → is_pair j img a ≡ is_pair j img b
unfolding pair_same
is_pair-same j img a b e = ground (arith, e)

pair_same-is_pair :
    (j img : ℕ) (a b : ℕ × ℕ)
    → is_pair j img a ≡ true
    → is_pair j img b ≡ true
    → pair_same a b ≡ true
unfolding pair_same
pair_same-is_pair j img a b e e' = ground (arith, e, e')

-- The images of the pairs of identity `j`.
abbrev seconds : ℕ → List (ℕ × ℕ) → List ℕ
seconds j [] = []
seconds j (p ∷ ps) = let rest = seconds j ps in if p.0 == j then p.1 ∷ rest else rest

seconds_lem :
    (j img : ℕ) (ps : List (ℕ × ℕ))
    → (count img (seconds j ps) ≡ count_by (is_pair j img) ps)
      × (length (seconds j ps) ≡ firsts j ps)
seconds_lem j img [] = (refl, refl)
seconds_lem j img (p ∷ ps) =
    let rest = seconds_lem j img ps in (ground (arith, rest.0), ground (arith, rest.1))

module _ (fl : Floats) (us : Usearch fl.Float) (g : G fl us) where
  module _ (id j : ℕ) (include_hidden : Bool) (two : (id == j) ≡ false)
      (shown : (include_hidden || not (g.hidden.at j)) ≡ true) where
    kept :
        (other : ℕ)
        → (other == j) ≡ true
        → (other == id || not include_hidden && g.hidden.at other) ≡ false
    kept other e =
        let equal : other ≡ j = ground (arith, e) in
        subst (λ o. (o == id || not include_hidden && g.hidden.at o) ≡ false) (sym equal)
          (ground (arith, two, shown))

    any-add_other :
        (img i ref : ℕ) (ps : List (ℕ × ℕ))
        → any (is_pair j i) (add_other fl us g id include_hidden img ref ps)
          ≡ ((img == i && ref == suc j) || any (is_pair j i) ps)
    unfolding add_other
    any-add_other img i zero ps = ground arith
    any-add_other img i (suc other) ps = elim (Bool-cases (other == j)) [
      | inl same ↦ ground (arith, same, kept other same)
      | inr differs ↦ ground (arith, differs)
    ]

    any-others_on :
        (img i : ℕ) (rows : List ℕ) (ps : List (ℕ × ℕ))
        → any (is_pair j i) (others_on fl us g id include_hidden img rows ps)
          ≡ ((img == i && someone fl us g j rows) || any (is_pair j i) ps)
    unfolding others_on someone
    any-others_on img i [] ps = ground arith
    any-others_on img i (o ∷ rows) ps = ground (
      arith,
      any-add_other img i (g.faces.at o).identity_ref
          (others_on fl us g id include_hidden img rows ps),
      any-others_on img i rows ps,
    )

    -- The pairs of `j` are the images on which shared_images finds `j`.
    any-pairs_with :
        (i : ℕ) (rows : List ℕ)
        → any (is_pair j i) (pairs_with fl us g id include_hidden rows)
          ≡ any (λ img. img == i) (images_with fl us g j rows)
    unfolding pairs_with images_with
    any-pairs_with i [] = refl
    any-pairs_with i (r ∷ rows) = ground (
      arith,
      any-pairs_with i rows,
      any-others_on (g.faces.at r).image_id i (g.image_faces.at ((g.faces.at r).image_id - 1))
          (pairs_with fl us g id include_hidden rows),
    )

    images_with-bounded :
        (i : ℕ) (rows : List ℕ)
        → suc g.image_faces.size ≤ i
        → any (λ img. img == i) (images_with fl us g j rows) ≡ false
    unfolding images_with has_image
    images_with-bounded i [] h = refl
    images_with-bounded i (r ∷ rows) h = ground (arith, h, images_with-bounded i rows h)

    abbrev pub pairs : List (ℕ × ℕ)
    pairs =
        unique_by pair_same
          (sort_by pair_before (pairs_with fl us g id include_hidden (g.members.at id)))

    count-common_images :
        (i : ℕ)
        → count i (common_images fl us g id j)
          ≡ (if any (λ img. img == i) (images_with fl us g j (g.members.at id)) then 1 else 0)
    unfolding common_images
    count-common_images i =
        count-count_by i (common_images fl us g id j)
        ∙ count_by-unique_by (λ (a b : ℕ). ltb b a) ◌==◌ newest-IsOrder (λ img. img == i)
            (λ a b e. ground (arith, e)) (λ a b e e'. ground (arith, e, e'))
            (images_with fl us g j (g.members.at id))

    count-seconds : (i : ℕ) → count i (seconds j pairs) ≡ count i (common_images fl us g id j)
    count-seconds i =
        (seconds_lem j i pairs).0
        ∙ count_by-unique_by pair_before pair_same pair_before-IsOrder (is_pair j i)
            (is_pair-same j i) (pair_same-is_pair j i)
            (pairs_with fl us g id include_hidden (g.members.at id))
        ∙ ap (λ b. if b then 1 else 0) (any-pairs_with i (g.members.at id))
        ∙ sym (count-common_images i)

    -- As many pairs of `j` as common images.
    pub firsts-pairs : firsts j pairs ≡ length (common_images fl us g id j)
    firsts-pairs =
        sym (seconds_lem j 0 pairs).1
        ∙ length-same (seconds j pairs) (common_images fl us g id j) (suc g.image_faces.size)
            count-seconds
            (λ i h.
              count-common_images i
              ∙ ap (λ b. if b then 1 else 0) (images_with-bounded i (g.members.at id) h))

-- ===== src/Gallery/Load/Maps.antt =====
-- rebuild_maps of src/store/gallery.cpp: on the files of a sound gallery it makes the maps that the
-- gallery had.
use hvax.Prelude.{
  ℕ, zero, suc, ◌+◌, ◌≤◌, ◌<◌, ◌^◌, ◌≡◌, refl, sym, subst, ◌∙◌, inl, inr, arith, Bool, true, ◌&&◌,
  Option, some, List, [], ◌∷◌, ◌%◌, count-append, ltb, ◌==◌, if◌then◌else◌, Table, count,
  Option-cases,
}
use hvax.Types.{FaceSlot, ImageSlot, slot_live, u32}
use hvax.Gallery.State.{Sha}
use hvax.Gallery.Images.{set_sha}
use hvax.Gallery.Faces.{track_image_face}
use hvax.Gallery.Shelf.{IsShelved, sha_eq→eq, sha_eq_self, sha256-injective}
use hvax.Gallery.Load.{shas_below, flags_below, images_below}

-- Image row `i` is live and has the digest `sha`, and is below `n`.
abbrev Has : Table ImageSlot → ℕ → Sha → ℕ → Type 0
Has images n sha i = (i < n) × (slot_live (images.at i).flags ≡ true) × ((images.at i).sha256 ≡ sha)

shas_below_found :
    (images : Table ImageSlot) (n : ℕ) (sha : Sha) (i : ℕ)
    → shas_below images n sha ≡ some i
    → Has images n sha i
unfolding shas_below set_sha
shas_below_found images zero sha i e = absurd cc
shas_below_found images (suc n) sha i e =
    ground (arith, sha_eq→eq sha (images.at n).sha256, shas_below_found images n sha i)

shas_below_known :
    (images : Table ImageSlot) (n i : ℕ)
    → ((j : ℕ) → Has images n (images.at i).sha256 j → j ≡ i)
    → Has images n (images.at i).sha256 i
    → shas_below images n (images.at i).sha256 ≡ some i
unfolding shas_below set_sha
shas_below_known images zero i only h = ground arith
shas_below_known images (suc n) i only h = ground (
  arith,
  sha_eq_self (images.at i).sha256,
  sha_eq→eq (images.at i).sha256 (images.at n).sha256,
  only n,
  shas_below_known images n i
      (λ (j : ℕ) (k : Has images n (images.at i).sha256 j). only j (omega (arith, k.0), k.1, k.2)),
)

pub flags_below_lem :
    {F : Type 0} (faces : Table (FaceSlot F)) (n : ℕ) (cache : Table ℕ) (r : ℕ)
    → ((flags_below faces n cache).at r ≡ (if ltb r n then (faces.at r).flags else cache.at r))
      × ((flags_below faces n cache).size ≡ cache.size)
unfolding flags_below
flags_below_lem faces zero cache r = ground arith
flags_below_lem faces (suc n) cache r = ground (arith, flags_below_lem faces n cache r)

-- The image of row `i` shows the live face `r`, which is below `n`.
abbrev pub shows_below : {F : Type 0} → Table (FaceSlot F) → ℕ → ℕ → ℕ → Bool
shows_below faces n i r =
    ltb r n && ((faces.at r).image_id == suc i && slot_live (faces.at r).flags)

-- What track_image_face does for an id that is in range.
count_track :
    (lists : Table (List ℕ)) (image_id row j r : ℕ)
    → row < 2 ^ 32
    → 0 < image_id
    → image_id ≤ lists.size
    → (count r ((track_image_face lists image_id row).at j)
        ≡ count r (lists.at j) + (if image_id == suc j && row == r then 1 else 0))
      × ((track_image_face lists image_id row).size ≡ lists.size)
unfolding track_image_face u32
count_track lists zero row j r small some_id inside = ground arith
count_track lists (suc i) row j r small some_id inside =
    let e : row % 2 ^ 32 ≡ row = omega arith in
    (rw e (ground (arith, count-append r (lists.at j) (row ∷ []))), refl)

pub images_below_lem :
    {F : Type 0} (faces : Table (FaceSlot F)) (n : ℕ) (lists : Table (List ℕ)) (i r : ℕ)
    → n ≤ 2 ^ 32
    → ((q : ℕ) → q < n → (0 < (faces.at q).image_id) × ((faces.at q).image_id ≤ lists.size))
    → (count r ((images_below faces n lists).at i)
        ≡ count r (lists.at i) + (if shows_below faces n i r then 1 else 0))
      × ((images_below faces n lists).size ≡ lists.size)
unfolding images_below
images_below_lem faces zero lists i r small on = ground arith
images_below_lem faces (suc n) lists i r small on = ground (
  arith,
  images_below_lem faces n lists i r (omega (arith, small))
      (λ (q : ℕ) (h : q < n). on q (omega (arith, h))),
  on n,
  count_track (images_below faces n lists) (faces.at n).image_id n i r (omega (arith, small)),
)

module _ (images : Table ImageSlot) (map : Sha → Option ℕ) (files : Sha → Option (List ℕ))
    (s : IsShelved images map files) where
  only_one :
      (i : ℕ)
      → i < images.size
      → slot_live (images.at i).flags ≡ true
      → (j : ℕ) → Has images images.size (images.at i).sha256 j
      → j ≡ i
  only_one i inside live j h = sha256-injective images map files s j i h.0 inside h.1 live h.2

  live_known :
      (i : ℕ)
      → i < images.size
      → slot_live (images.at i).flags ≡ true
      → shas_below images images.size (images.at i).sha256 ≡ some i
  live_known i inside live =
      shas_below_known images images.size i (only_one i inside live) (inside, live, refl)

  -- The digest map made anew is the one that there was.
  pub shas_below_lem : (sha : Sha) → shas_below images images.size sha ≡ map sha
  shas_below_lem sha = elim (Option-cases (shas_below images images.size sha)) [
    | inl nothing ↦ elim (Option-cases (map sha)) [
      | inl nor ↦ nothing ∙ sym nor
      | inr (i, e) ↦
          let f = s.found sha i e in
          subst (λ k. shas_below images images.size k ≡ map k) f.2
            (live_known i f.0 f.1 ∙ sym (s.known i f.0 f.1))
    ]
    | inr (i, e) ↦
        let f = shas_below_found images images.size sha i e in
        e ∙ sym (subst (λ k. map k ≡ some i) f.2 (s.known i f.0 f.1))
  ]

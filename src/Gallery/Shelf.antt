-- ===== src/Gallery/Shelf.antt =====
-- The images of a gallery, its digest map and its image files (src/store/gallery.cpp), and how they
-- agree: ids are row numbers plus one, a digest leads to the live image that has it, and every live
-- image has its file.
use hvax.Prelude.{
  ℕ, suc, ◌<◌, ◌≡◌, ◌≢◌, refl, sym, ap, ◌∙◌, true, false, Option, none, some, List, [], ◌∷◌, arith,
  Table, put, push, Bool-cases, inl, inr,
}
use hvax.Types.{ImageSlot, tombstone, set_flag, slot_live, has-set_tombstone}
use hvax.Gallery.State.{Sha, sha_eq}
use hvax.Gallery.Images.{set_sha}

pub sha_eq→eq : (a b : Sha) → sha_eq a b ≡ true → a ≡ b
unfolding sha_eq
sha_eq→eq [] [] h = refl
sha_eq→eq [] (y ∷ b) h = cc
sha_eq→eq (x ∷ a) [] h = cc
sha_eq→eq (x ∷ a) (y ∷ b) h = ground (arith, sha_eq→eq a b)

pub sha_eq_self : (a : Sha) → sha_eq a a ≡ true
unfolding sha_eq
sha_eq_self [] = refl
sha_eq_self (x ∷ a) = ground (arith, sha_eq_self a)

pub sha_ne : (a b : Sha) → a ≢ b → sha_eq a b ≡ false
sha_ne a b n = elim (Bool-cases (sha_eq a b)) [
  | inl same ↦ absurd (n (sha_eq→eq a b same))
  | inr other ↦ other
]

pub set_sha_self : {A : Type 0} (m : Sha → Option A) (k : Sha) (v : Option A) → set_sha m k v k ≡ v
unfolding set_sha
set_sha_self m k v = rw (sha_eq_self k)

pub set_sha_ne :
    {A : Type 0} (m : Sha → Option A) (k j : Sha) (v : Option A) → j ≢ k → set_sha m k v j ≡ m j
unfolding set_sha
set_sha_ne m k j v n = rw (sha_ne j k n)

pub record IsShelved (images : Table ImageSlot) (map : Sha → Option ℕ)
    (files : Sha → Option (List ℕ)) : Type 0 where
  pub ids : (i : ℕ) → i < images.size → (images.at i).image_id ≡ suc i
  pub found :
      (sha : Sha) (i : ℕ)
      → map sha ≡ some i
      → (i < images.size) × (slot_live (images.at i).flags ≡ true) × ((images.at i).sha256 ≡ sha)
  pub known :
      (i : ℕ)
      → i < images.size
      → slot_live (images.at i).flags ≡ true
      → map (images.at i).sha256 ≡ some i
  pub filed :
      (i : ℕ)
      → i < images.size
      → slot_live (images.at i).flags ≡ true
      → files (images.at i).sha256 ≢ none

module _ (images : Table ImageSlot) (map : Sha → Option ℕ) (files : Sha → Option (List ℕ))
    (s : IsShelved images map files) where
  -- Two live images never have the same digest.
  pub sha256-injective :
      (i j : ℕ)
      → i < images.size
      → j < images.size
      → slot_live (images.at i).flags ≡ true
      → slot_live (images.at j).flags ≡ true
      → (images.at i).sha256 ≡ (images.at j).sha256
      → i ≡ j
  sha256-injective i j hi hj li lj e = ground (arith, s.known i hi li, s.known j hj lj, ap map e)

  -- A new image with a digest that the map does not have.
  pub push-IsShelved :
      (x : ImageSlot) (bytes : List ℕ)
      → map x.sha256 ≡ none
      → x.image_id ≡ suc images.size
      → slot_live x.flags ≡ true
      → IsShelved
          (push images x)
          (set_sha map x.sha256 (some images.size))
          (set_sha files x.sha256 (some bytes))
  unfolding set_sha
  push-IsShelved x bytes fresh id live = record {
    ids = λ i h. ground (arith, s.ids i);
    found = λ sha i h. ground (arith, s.found sha i, sha_eq→eq sha x.sha256);
    known = λ i h l.
        ground (arith, s.known i, sha_eq_self x.sha256, sha_eq→eq (images.at i).sha256 x.sha256);
    filed = λ i h l e.
        ground (arith, s.filed i, sha_eq_self x.sha256, sha_eq→eq (images.at i).sha256 x.sha256, e);
  }

  module _ (i : ℕ) (inside : i < images.size) (live : slot_live (images.at i).flags ≡ true) where
    -- The image of row `i` becomes a tombstone, and its digest and file go.
    pub remove-IsShelved :
        let im = images.at i in
        IsShelved
          (put images i (record im { flags = set_flag tombstone im.flags }))
          (set_sha map im.sha256 none)
          (set_sha files im.sha256 none)
    unfolding set_sha
    remove-IsShelved = record {
      ids = λ j h. ground (arith, s.ids j h);
      found = λ sha j h. ground (
        arith,
        s.found sha j,
        s.known i inside live,
        sha_eq_self sha,
        sha_eq→eq sha (images.at i).sha256,
        h,
      );
      known = λ j h l. ground (
        arith,
        s.known j,
        s.known i inside live,
        dead,
        sha_eq→eq (images.at j).sha256 (images.at i).sha256,
        l,
      );
      filed = λ j h l e. ground (
        arith,
        s.filed j,
        s.known j,
        s.known i inside live,
        dead,
        sha_eq→eq (images.at j).sha256 (images.at i).sha256,
        l,
        e,
      );
    }
      where
        dead : slot_live (set_flag tombstone (images.at i).flags) ≡ false
        dead = unfold slot_live in rw (has-set_tombstone (images.at i).flags)

    -- The image of row `i` gets a digest that the map does not have.
    pub upgrade-IsShelved :
        (y : ImageSlot) (bytes : List ℕ)
        → map y.sha256 ≡ none
        → y.image_id ≡ (images.at i).image_id
        → slot_live y.flags ≡ true
        → IsShelved
            (put images i y)
            (set_sha (set_sha map (images.at i).sha256 none) y.sha256 (some i))
            (set_sha (set_sha files y.sha256 (some bytes)) (images.at i).sha256 none)
    unfolding set_sha
    upgrade-IsShelved y bytes fresh id live' = record {
      ids = λ j h. ground (arith, s.ids j h, s.ids i inside);
      found = λ sha j h. ground (
        arith,
        s.found sha j,
        sha_eq_self sha,
        sha_eq→eq sha y.sha256,
        sha_eq→eq sha (images.at i).sha256,
        h,
      );
      known = λ j h l. ground (
        arith,
        s.known j,
        s.known i inside live,
        sha_eq_self y.sha256,
        sha_eq→eq (images.at j).sha256 y.sha256,
        sha_eq→eq (images.at j).sha256 (images.at i).sha256,
        l,
      );
      filed = λ j h l e. ground (
        arith,
        s.known j,
        s.filed j,
        s.known i inside live,
        sha_eq_self y.sha256,
        sha_eq→eq y.sha256 (images.at i).sha256,
        sha_eq→eq (images.at j).sha256 y.sha256,
        sha_eq→eq (images.at j).sha256 (images.at i).sha256,
        l,
        e,
      );
    }

-- A slot may change in all but its id, its flags and its digest.
pub reslot-IsShelved :
    (images : Table ImageSlot) (map : Sha → Option ℕ) (files : Sha → Option (List ℕ))
    → IsShelved images map files
    → (i : ℕ) (x : ImageSlot) → x.image_id ≡ (images.at i).image_id
    → x.flags ≡ (images.at i).flags
    → x.sha256 ≡ (images.at i).sha256
    → IsShelved (put images i x) map files
reslot-IsShelved images map files s i x id flags sha = record {
  ids = λ j h. ground (arith, s.ids j h);
  found = λ k j h. ground (arith, s.found k j h);
  known = λ j h l. ground (arith, s.known j h, l);
  filed = λ j h l e. ground (arith, s.filed j h, l, e);
}

-- Slots may change in what is not their id, their digest and whether they are live.
pub remark-IsShelved :
    (images images' : Table ImageSlot) (map : Sha → Option ℕ) (files : Sha → Option (List ℕ))
    → IsShelved images map files
    → images'.size ≡ images.size
    → ((i : ℕ) → (images'.at i).image_id ≡ (images.at i).image_id)
    → ((i : ℕ) → (images'.at i).sha256 ≡ (images.at i).sha256)
    → ((i : ℕ) → slot_live (images'.at i).flags ≡ slot_live (images.at i).flags)
    → IsShelved images' map files
remark-IsShelved images images' map files s n id sha live = record {
  ids = λ i h. id i ∙ s.ids i (omega (arith, h, n));
  found = λ k i e. let f = s.found k i e in (omega (arith, f.0, n), live i ∙ f.1, sha i ∙ f.2);
  known = λ i h l. ap map (sha i) ∙ s.known i (omega (arith, h, n)) (sym (live i) ∙ l);
  filed =
      λ i h l e. s.filed i (omega (arith, h, n)) (sym (live i) ∙ l) (ap files (sym (sha i)) ∙ e);
}

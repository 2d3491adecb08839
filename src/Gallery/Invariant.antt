-- ===== src/Gallery/Invariant.antt =====
-- What the operations of src/store/gallery.cpp and src/store/identity.cpp keep of a gallery.
use hvax.Prelude.{
  ℕ, zero, suc, ◌+◌, ◌≤◌, ◌<◌, ◌^◌, ◌≡◌, refl, ◌∙◌, arith, ◌≢◌, ◌⊎◌, Bool, true, false, ◌&&◌, List,
  [], ◌∷◌, ltb, ◌==◌, if◌then◌else◌, count, length,
}
use hvax.Floats.{Floats}
use hvax.Hnsw.{Usearch, contains}
use hvax.Types.{has, hidden_flag, slot_live, face_indexable, u32}
use hvax.Gallery.State.{Gallery}

abbrev pub nonempty : List ℕ → Bool
nonempty [] = false
nonempty (r ∷ rows) = true

pub nonempty_of_count : (r : ℕ) (rows : List ℕ) → count r rows ≡ 1 → nonempty rows ≡ true
nonempty_of_count r [] e = ground (arith, e)
nonempty_of_count r (x ∷ rows) e = refl

-- How many of the first `n` cells are true.
abbrev pub tally : (ℕ → Bool) → ℕ → ℕ
tally f zero = 0
tally f (suc n) = (if f n then 1 else 0) + tally f n

-- Three equations, one after three others.
pub three_steps :
    {A B C : Type 0} {a a' a'' : A} {b b' b'' : B} {c c' c'' : C}
    → (a' ≡ a) × (b' ≡ b) × (c' ≡ c)
    → (a'' ≡ a') × (b'' ≡ b') × (c'' ≡ c')
    → (a'' ≡ a) × (b'' ≡ b) × (c'' ≡ c)
three_steps p q = (q.0 ∙ p.0, q.1 ∙ p.1, q.2 ∙ p.2)

module _ (fl : Floats) (us : Usearch fl.Float) where
  abbrev pub G : Type 0
  G = Gallery fl.Float us.Index

  -- Face `r` refers to identity `id`.
  abbrev pub refers : G → ℕ → ℕ → Bool
  refers g id r = ltb r g.faces.size && (g.faces.at r).identity_ref == suc id

  -- Face `r` is live and belongs to the image of row `i`.
  abbrev pub shows : G → ℕ → ℕ → Bool
  shows g i r =
      ltb r g.faces.size && ((g.faces.at r).image_id == suc i && slot_live (g.faces.at r).flags)

  -- The tables that run in parallel have the same size.
  pub record IsAligned (g : G) : Type 0 where
    pub embs : g.embs.size ≡ g.faces.size
    pub embs_i8 : g.embs_i8.size ≡ g.faces.size
    pub flags_cache : g.flags_cache.size ≡ g.faces.size
    pub image_faces : g.image_faces.size ≡ g.images.size
    pub members : g.members.size ≡ g.identities.size
    pub hidden : g.hidden.size ≡ g.identities.size
    pub tallied : g.hidden_count ≡ tally g.hidden.at g.hidden.size
    pub centroids : g.centroids.size ≡ g.identities.size
    pub rows_fit : g.faces.size ≤ 2 ^ 32

  -- The member lists are the inverse of the references, without repetition; only an indexable face
  -- refers to an identity, and to one that has a row.
  pub record HasMembers (g : G) : Type 0 where
    pub listed :
        (id r : ℕ)
        → id < g.identities.size
        → count r (g.members.at id) ≡ (if refers g id r then 1 else 0)
    pub in_range : (r : ℕ) → r < g.faces.size → (g.faces.at r).identity_ref ≤ g.identities.size
    pub indexable :
        (r : ℕ)
        → r < g.faces.size
        → ((g.faces.at r).identity_ref ≡ 0) ⊎ (face_indexable (g.faces.at r).flags ≡ true)

  -- The slot of an identity has the number of its members, and is live just if there are any.
  pub record IsCounted (g : G) (id : ℕ) : Type 0 where
    pub size : (g.identities.at id).size ≡ u32 (length (g.members.at id))
    pub live : slot_live (g.identities.at id).flags ≡ nonempty (g.members.at id)

  abbrev pub AllCounted : G → Type 0
  AllCounted g = (id : ℕ) → id < g.identities.size → IsCounted g id

  -- The hidden mirror agrees with the flag words.
  abbrev pub IsMirrored : G → Type 0
  IsMirrored g =
      (id : ℕ)
      → id < g.identities.size
      → g.hidden.at id ≡ has hidden_flag (g.identities.at id).flags

  -- The image lists are the live faces of each image; the flag cache is the flags; the index holds
  -- just the indexable faces.
  pub record HasFaces (g : G) : Type 0 where
    pub cached : (r : ℕ) → r < g.faces.size → g.flags_cache.at r ≡ (g.faces.at r).flags
    pub shown :
        (i r : ℕ)
        → i < g.images.size
        → count r (g.image_faces.at i) ≡ (if shows g i r then 1 else 0)
    pub on_image :
        (r : ℕ)
        → r < g.faces.size
        → (0 < (g.faces.at r).image_id) × ((g.faces.at r).image_id ≤ g.images.size)
    pub indexed :
        (r : ℕ)
        → contains fl us g.hnsw r ≡ (ltb r g.faces.size && face_indexable (g.faces.at r).flags)

  pub record IsConsistent (g : G) : Type 0 where
    pub aligned : IsAligned g
    pub membership : HasMembers g
    pub counted : AllCounted g
    pub mirrored : IsMirrored g
    pub faces : HasFaces g

  -- Consistent, but for whether face `row` may have the identity that it has: between a change of
  -- its flags and the call that takes it out of the identity.
  pub record IsConsistentBut (row : ℕ) (g : G) : Type 0 where
    pub aligned : IsAligned g
    pub listed :
        (id r : ℕ)
        → id < g.identities.size
        → count r (g.members.at id) ≡ (if refers g id r then 1 else 0)
    pub in_range : (r : ℕ) → r < g.faces.size → (g.faces.at r).identity_ref ≤ g.identities.size
    pub indexable :
        (r : ℕ)
        → r < g.faces.size
        → r ≢ row
        → ((g.faces.at r).identity_ref ≡ 0) ⊎ (face_indexable (g.faces.at r).flags ≡ true)
    pub counted : AllCounted g
    pub mirrored : IsMirrored g
    pub faces : HasFaces g

  pub IsConsistent-but : (row : ℕ) {g : G} → IsConsistent g → IsConsistentBut row g
  IsConsistent-but row c = record {
    aligned = c.aligned;
    listed = c.membership.listed;
    in_range = c.membership.in_range;
    indexable = λ r h n. c.membership.indexable r h;
    counted = c.counted;
    mirrored = c.mirrored;
    faces = c.faces;
  }

  -- Consistent, but for the statistics of `target`: before it is recomputed.
  pub record IsConsistentBarring (target : ℕ) (g : G) : Type 0 where
    pub aligned : IsAligned g
    pub membership : HasMembers g
    pub counted : (j : ℕ) → j < g.identities.size → j ≢ target → IsCounted g j
    pub mirrored : IsMirrored g
    pub faces : HasFaces g

  -- What the handling of faces leaves alone (the images, the digest map, the files), with at most `n`
  -- more faces.
  pub record SameShelf (n : ℕ) (g g' : G) : Type 0 where
    pub grown : g.faces.size ≤ g'.faces.size
    pub bounded : g'.faces.size ≤ g.faces.size + n
    pub images : g'.images ≡ g.images
    pub sha_to_idx : g'.sha_to_idx ≡ g.sha_to_idx
    pub masters : g'.masters ≡ g.masters

  pub SameShelf-refl : (n : ℕ) (g : G) → SameShelf n g g
  SameShelf-refl n g = record {
    grown = omega arith;
    bounded = omega arith;
    images = refl;
    sha_to_idx = refl;
    masters = refl;
  }

  pub SameShelf-trans :
      (m n k : ℕ) (g h i : G) → m + n ≤ k → SameShelf m g h → SameShelf n h i → SameShelf k g i
  SameShelf-trans m n k g h i le p q = record {
    grown = omega (arith, p.grown, q.grown);
    bounded = omega (arith, p.bounded, q.bounded);
    images = q.images ∙ p.images;
    sha_to_idx = q.sha_to_idx ∙ p.sha_to_idx;
    masters = q.masters ∙ p.masters;
  }

  -- Consistent, with the shelf of `g` and at most `n` more faces.
  abbrev pub Follows : ℕ → G → G → Type 0
  Follows n g g' = IsConsistent g' × SameShelf n g g'

  pub Follows-trans :
      (m n k : ℕ) (g h i : G) → m + n ≤ k → Follows m g h → Follows n h i → Follows k g i
  Follows-trans m n k g h i le p q = (q.0, SameShelf-trans m n k g h i le p.1 q.1)

  -- The same images, digest map and files.
  abbrev pub SameImages : G → G → Type 0
  SameImages g g' =
      (g'.images ≡ g.images) × (g'.sha_to_idx ≡ g.sha_to_idx) × (g'.masters ≡ g.masters)

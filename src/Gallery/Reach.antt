-- ===== src/Gallery/Reach.antt =====
-- The calls of the class Gallery that change it (src/store/gallery.cpp, src/store/identity.cpp) as
-- steps, each made under its exclusive lock, and the galleries that they lead to.
use hvax.Prelude.{
  ℕ, ◌+◌, ◌≤◌, ◌<◌, ◌≡◌, ◌^◌, refl, Bool, true, false, none, some, List, [], length, arith, ℤ,
  Table, filled,
}
use hvax.Floats.{Floats}
use hvax.Hnsw.{Usearch, contains}
use hvax.Vectors.{zeros}
use hvax.Types.{DetectedFace, FaceSlot, ImageSlot, IdentitySlot, slot_live}
use hvax.Gallery.State.{Config}
use hvax.Gallery.Invariant.{G}
use hvax.Gallery.Images.{Picture, live_row, insert, remove_image}
use hvax.Gallery.Images.Keep.{IsSound, insert-IsSound}
use hvax.Gallery.Images.Removal.{remove_image-IsSound}
use hvax.Gallery.Shelf.{sha256-injective}
use hvax.Gallery.Upgrade.{upgrade_row}
use hvax.Gallery.Upgrade.Keep.{upgrade_lem}
use hvax.Gallery.Curation.{
  set_identity_hidden, rename_identity, dissolve_identity, merge_identities, split_identity,
  assign_face,
}
use hvax.Gallery.Curation.Sound.{
  set_identity_hidden-IsSound, rename_identity-IsSound, dissolve_identity-IsSound,
  merge_identities-IsSound, split_identity-IsSound, assign_face-IsSound,
}
use hvax.Gallery.Labels.{apply_labels}
use hvax.Gallery.Labels.Keep.{Labels}
use hvax.Gallery.Labels.Sound.{apply_labels_lem}

module _ (fl : Floats) (us : Usearch fl.Float) where
  -- The gallery of an empty directory, whose tables have no rows; what a row outside of them reads is
  -- of no account.
  unfoldable pub empty_gallery : FaceSlot fl.Float → ImageSlot → IdentitySlot → G fl us
  empty_gallery face image identity = record {
    images = filled 0 image;
    faces = filled 0 face;
    embs = filled 0 (zeros fl);
    embs_i8 = filled 0 [];
    identities = filled 0 identity;
    centroids = filled 0 (zeros fl);
    hnsw = us.made;
    sha_to_idx = λ _. none;
    flags_cache = filled 0 0;
    centroid_norm = filled 0 (zeros fl);
    members = filled 0 [];
    image_faces = filled 0 [];
    hidden = filled 0 false;
    hidden_count = 0;
    masters = λ _. none;
  }

  -- A call with its arguments. A picture is inserted, or becomes a master, only if the digest map does
  -- not have its digest, and while the rows fit in 32 bits.
  pub data Step (cfg : Config fl.Float) : G fl us → G fl us → Type 0 where
    inserted :
        (g : G fl us) (p : Picture) (faces : List (DetectedFace fl.Float)) (now : ℕ)
        → g.sha_to_idx p.sha ≡ none
        → g.faces.size + length faces ≤ 2 ^ 32
        → Step cfg g (insert fl us cfg g p faces now).1
    upgraded :
        (g : G fl us) (image_id : ℤ) (i : ℕ) (p : Picture) (faces : List (DetectedFace fl.Float))
        (now : ℕ)
        → live_row fl us g image_id ≡ some i
        → g.sha_to_idx p.sha ≡ none
        → g.faces.size + length faces ≤ 2 ^ 32
        → Step cfg g (upgrade_row fl us cfg g i p faces now)
    removed :
        (g : G fl us) (image_id : ℤ) (now : ℕ) → Step cfg g (remove_image fl us g image_id now).1
    hidden :
        (g : G fl us) (id : ℤ) (b : Bool) (now : ℕ)
        → g.identities.size < 2 ^ 64
        → Step cfg g (set_identity_hidden fl us g id b now).1
    renamed :
        (g : G fl us) (id : ℤ) (name : List ℕ) (now : ℕ)
        → Step cfg g (rename_identity fl us g id name now).1
    dissolved : (g : G fl us) (id : ℤ) (now : ℕ) → Step cfg g (dissolve_identity fl us g id now).1
    merged :
        (g : G fl us) (ids : List ℤ) (now : ℕ) → Step cfg g (merge_identities fl us g ids now).1
    parted :
        (g : G fl us) (id : ℤ) (faces : List ℤ) (now : ℕ)
        → Step cfg g (split_identity fl us g id faces now).1
    assigned :
        (g : G fl us) (face id : ℤ) (now : ℕ) → Step cfg g (assign_face fl us g face id now).1
    -- The writes of a run of batch clustering, whose labels go to indexable faces.
    labelled :
        (g : G fl us) (labels : Table ℤ) (n now : ℕ)
        → Labels fl us g labels n
        → Step cfg g (apply_labels fl us g labels n now)

  pub data Reachable (cfg : Config fl.Float) : G fl us → Type 0 where
    started :
        (face : FaceSlot fl.Float) (image : ImageSlot) (identity : IdentitySlot)
        → Reachable cfg (empty_gallery face image identity)
    stepped : (g g' : G fl us) → Reachable cfg g → Step cfg g g' → Reachable cfg g'

  pub empty_gallery-IsSound :
      (face : FaceSlot fl.Float) (image : ImageSlot) (identity : IdentitySlot)
      → IsSound fl us (empty_gallery face image identity)
  unfolding empty_gallery contains
  empty_gallery-IsSound face image identity = record {
    consistent = record {
      aligned = record {
        embs = refl;
        embs_i8 = refl;
        flags_cache = refl;
        image_faces = refl;
        members = refl;
        hidden = refl;
        tallied = refl;
        centroids = refl;
        rows_fit = omega arith;
      };
      membership = record {
        listed = λ id r h. ground (arith, h);
        in_range = λ r h. ground (arith, h);
        indexable = λ r h. ground (arith, h);
      };
      counted = λ id h. ground (arith, h);
      mirrored = λ id h. ground (arith, h);
      faces = record {
        cached = λ r h. ground (arith, h);
        shown = λ i r h. ground (arith, h);
        on_image = λ r h. ground (arith, h);
        indexed = λ r. ground (arith, us.contains_made r);
      };
    };
    shelved = record {
      ids = λ i h. ground (arith, h);
      found = λ sha i e. absurd cc;
      known = λ i h l. ground (arith, h);
      filed = λ i h l. ground (arith, h);
    };
  }

  step-IsSound :
      (cfg : Config fl.Float) (g g' : G fl us) → Step cfg g g' → IsSound fl us g → IsSound fl us g'
  step-IsSound cfg g _ (inserted _ p faces now fresh room) s =
      insert-IsSound fl us cfg g p faces now s room fresh
  step-IsSound cfg g _ (upgraded _ image_id i p faces now row fresh room) s =
      (upgrade_lem fl us cfg g image_id i p faces now s room row fresh).1
  step-IsSound cfg g _ (removed _ image_id now) s = remove_image-IsSound fl us g image_id now s
  step-IsSound cfg g _ (hidden _ id b now small) s =
      set_identity_hidden-IsSound fl us g now s id b small
  step-IsSound cfg g _ (renamed _ id name now) s = rename_identity-IsSound fl us g now s id name
  step-IsSound cfg g _ (dissolved _ id now) s = dissolve_identity-IsSound fl us g now s id
  step-IsSound cfg g _ (merged _ ids now) s = merge_identities-IsSound fl us g now s ids
  step-IsSound cfg g _ (parted _ id faces now) s = split_identity-IsSound fl us g now s id faces
  step-IsSound cfg g _ (assigned _ face id now) s = assign_face-IsSound fl us g now s face id
  step-IsSound cfg g _ (labelled _ labels n now v) s =
      (apply_labels_lem fl us g labels n now s v 0).0

  pub Reachable-IsSound : (cfg : Config fl.Float) (g : G fl us) → Reachable cfg g → IsSound fl us g
  Reachable-IsSound cfg _ (started face image identity) = empty_gallery-IsSound face image identity
  Reachable-IsSound cfg g (stepped g₀ _ r s) = step-IsSound cfg g₀ g s (Reachable-IsSound cfg g₀ r)

  -- No two live images that the calls lead to have the same digest.
  pub Reachable-distinct :
      (cfg : Config fl.Float) (g : G fl us) (i j : ℕ)
      → Reachable cfg g
      → i < g.images.size
      → j < g.images.size
      → slot_live (g.images.at i).flags ≡ true
      → slot_live (g.images.at j).flags ≡ true
      → (g.images.at i).sha256 ≡ (g.images.at j).sha256
      → i ≡ j
  Reachable-distinct cfg g i j r =
      sha256-injective g.images g.sha_to_idx g.masters (Reachable-IsSound cfg g r).shelved i j

-- ===== src/Gallery/State.antt =====
-- The fields of the class Gallery in include/hvax/store/gallery.hpp, and of the configuration that
-- its operations read. A file of records is the table of its rows (see SlotFile.View).
use hvax.Prelude.{ℕ, Bool, true, false, ◌&&◌, Option, List, [], ◌∷◌, ℤ, Table, ◌==◌}
use hvax.Types.{FaceSlot, ImageSlot, IdentitySlot}

pub record Config (F : Type 0) : Type 0 where
  pub index_min_face_px : F
  pub index_min_det : F
  pub identity_join : F
  pub phash_threshold : ℕ
  pub dhash_threshold : ℕ
  pub exact_until : ℕ
  pub i8_scan : Bool
  pub max_range : ℕ
  pub max_upload : ℕ
  pub default_k : ℕ
  -- dedup == DedupMode::perceptual
  pub dedup_perceptual : Bool

-- A digest is the list of its bytes.
abbrev pub Sha : Type 0
Sha = List ℕ

unfoldable pub sha_eq : Sha → Sha → Bool
sha_eq [] [] = true
sha_eq (x ∷ xs) (y ∷ ys) = x == y && sha_eq xs ys
sha_eq _ _ = false

pub record Gallery (F X : Type 0) : Type 0 where
  pub images : Table ImageSlot
  pub faces : Table (FaceSlot F)
  pub embs : Table (List F)
  pub embs_i8 : Table (List ℤ)
  pub identities : Table IdentitySlot
  pub centroids : Table (List F)
  pub hnsw : X
  pub sha_to_idx : Sha → Option ℕ
  pub flags_cache : Table ℕ
  pub centroid_norm : Table (List F)
  pub members : Table (List ℕ)
  pub image_faces : Table (List ℕ)
  pub hidden : Table Bool
  pub hidden_count : ℕ
  -- The image files under data_dir/images, by digest.
  pub masters : Sha → Option (List ℕ)

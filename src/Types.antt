-- ===== src/Types.antt =====
-- include/hvax/types.hpp: the records on disk, their flag words, and the views read from them.
mod Flags
unfoldable pub use Flags.*
use hvax.Prelude.{
  ℕ, zero, suc, ◌+◌, ◌-◌, ◌%◌, ◌^◌, Bool, List, [], ◌∷◌, if◌then◌else◌, ℤ, pos, negsuc, ◌&&◌, not,
}
use hvax.Floats.{Floats}

-- static_cast<uint32_t>
unfoldable pub u32 : ℕ → ℕ
u32 n = n % 2 ^ 32

pub record BBox (F : Type 0) : Type 0 where
  pub x1 : F
  pub y1 : F
  pub x2 : F
  pub y2 : F

-- The landmarks are five points, as ten coordinates.
pub record DetectedFace (F : Type 0) : Type 0 where
  pub box : BBox F
  pub det_score : F
  pub kps : List F
  pub embedding : List F

pub record FaceSlot (F : Type 0) : Type 0 where
  pub face_id : ℕ
  pub image_id : ℕ
  pub box : BBox F
  pub det_score : F
  pub kps : List F
  pub flags : ℕ
  pub created_at : ℕ
  -- identity_id + 1, or 0 for no identity.
  pub identity_ref : ℕ

pub record ImageSlot : Type 0 where
  pub image_id : ℕ
  pub sha256 : List ℕ
  pub width : ℕ
  pub height : ℕ
  pub nbytes : ℕ
  pub mime : ℕ
  pub flags : ℕ
  pub phash : ℕ
  pub dhash : ℕ
  pub created_at : ℕ
  pub updated_at : ℕ
  pub nfaces : ℕ

pub record IdentitySlot : Type 0 where
  pub identity_id : ℕ
  pub size : ℕ
  pub n_images : ℕ
  pub rep_face_id : ℕ
  pub flags : ℕ
  pub created_at : ℕ
  pub updated_at : ℕ
  pub first_seen : ℕ
  pub last_seen : ℕ
  pub name : List ℕ

-- identity_ref - 1, and -1 for 0.
unfoldable pub id_of_ref : ℕ → ℤ
id_of_ref zero = negsuc 0
id_of_ref (suc id) = pos id

unfoldable pub identity_of : {F : Type 0} → FaceSlot F → ℤ
unfolding id_of_ref
identity_of s = id_of_ref s.identity_ref

-- ===== src/Gallery/Reads.antt =====
-- Reads of src/store/gallery.cpp by an id from outside. A view has what its slot has, and the slot
-- stands for it; `none` is an exception, or false.
use hvax.Prelude.{
  ℕ, zero, suc, ◌&&◌, Option, none, some, ◌>>=◌, List, [], ◌∷◌, ltb, leb, ◌==◌, if◌then◌else◌,
  Table, ℤ, pos, negsuc,
}
use hvax.Floats.{Floats}
use hvax.Hnsw.{Usearch}
use hvax.Types.{FaceSlot, ImageSlot, slot_live}
use hvax.Gallery.State.{Gallery}
use hvax.Gallery.Images.{live_row}

module _ (fl : Floats) (us : Usearch fl.Float) where
  open fl use {Float}
  open us use {Index}

  unfoldable pub image_row : Gallery Float Index → ℕ → Option ImageSlot
  image_row g i = if (g.images.at i).image_id == suc i then some (g.images.at i) else none

  unfoldable pub image : Gallery Float Index → ℤ → Option ImageSlot
  unfolding image_row
  image g image_id = live_row fl us g image_id >>= image_row g

  unfoldable pub slots_at : Table (FaceSlot Float) → List ℕ → List (FaceSlot Float)
  slots_at faces [] = []
  slots_at faces (r ∷ rows) = faces.at r ∷ slots_at faces rows

  -- No faces for an id that is out of range.
  unfoldable pub faces_of : Gallery Float Index → ℤ → List (FaceSlot Float)
  unfolding slots_at
  faces_of g (negsuc _) = []
  faces_of g (pos zero) = []
  faces_of g (pos (suc i)) =
      if leb g.image_faces.size i then [] else slots_at g.faces (g.image_faces.at i)

  pub face : Gallery Float Index → ℤ → Option (FaceSlot Float)
  face g (negsuc _) = none
  face g (pos row) =
      if ltb row g.faces.size && slot_live (g.faces.at row).flags
      then some (g.faces.at row)
      else none

  pub face_embedding : Gallery Float Index → ℕ → Option (List Float)
  face_embedding g row =
      if ltb row g.embs.size && slot_live (g.faces.at row).flags then some (g.embs.at row) else none

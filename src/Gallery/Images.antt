-- ===== src/Gallery/Images.antt =====
-- Images of src/store/gallery.cpp: find_by_sha, insert, upgrade, remove_image and the reads by image.
pub mod Keep
pub mod Removal
use hvax.Prelude.{
  ℕ, zero, suc, ◌+◌, ◌-◌, ◌*◌, Bool, true, false, not, ◌&&◌, ◌||◌, Option, none, some, List, [],
  ◌∷◌, ◌++◌, ltb, leb, ◌==◌, if◌then◌else◌, Table, put, push, update, length, ℤ, pos, negsuc, sort,
  unique,
}
use hvax.Floats.{Floats}
use hvax.Hnsw.{Usearch, add, remove}
use hvax.Hnsw
use hvax.Vectors.{quantize_i8, dot512}
use hvax.Types.{
  BBox, DetectedFace, FaceSlot, ImageSlot, tombstone, low_quality, set_flag, clear_flag, slot_live,
  face_indexable, u32,
}
use hvax.Gallery.State.{Gallery, Config, Sha, sha_eq}
use hvax.Gallery.Identities.{try_join_identity, unassign, recompute_identity}
use hvax.Gallery.Faces.{passes_gate, append_face, append_faces, tombstone_face, tombstone_faces}

-- map[sha] = v, or map.erase(sha) for `none`; the files of masters likewise.
unfoldable pub set_sha : {A : Type 0} → (Sha → Option A) → Sha → Option A → Sha → Option A
set_sha m sha v k = if sha_eq k sha then v else m k

-- A picture as the store sees it: its bytes, its size, its digest, its type and perceptual hashes.
pub record Picture : Type 0 where
  pub bytes : List ℕ
  pub cols : ℕ
  pub rows : ℕ
  pub sha : Sha
  pub mime : ℕ
  pub phash : ℕ
  pub dhash : ℕ

-- The slot in the row that a map gave, if it gave one.
unfoldable pub slot_at : Table ImageSlot → Option ℕ → Option ImageSlot
slot_at images none = none
slot_at images (some i) = some (images.at i)

module _ (fl : Floats) (us : Usearch fl.Float) where
  open fl use {Float, lit, lt, le}
  open us use {Index}

  -- The row of a live image, for an id from outside: `image` and `upgrade` throw for `none`, and
  -- `remove_image` returns false.
  unfoldable pub live_row : Gallery Float Index → ℤ → Option ℕ
  live_row g (negsuc _) = none
  live_row g (pos zero) = none
  live_row g (pos (suc i)) =
      if ltb i g.images.size && slot_live (g.images.at i).flags then some i else none

  unfoldable pub find_by_sha : Gallery Float Index → Sha → Option ImageSlot
  find_by_sha g sha = slot_at g.images (g.sha_to_idx sha)

  -- The slot of a new image.
  pub new_image_slot : ℕ → Picture → List (DetectedFace Float) → ℕ → ImageSlot
  new_image_slot idx p faces now = record {
    image_id = suc idx;
    sha256 = p.sha;
    width = u32 p.cols;
    height = u32 p.rows;
    nbytes = u32 (length p.bytes);
    mime = p.mime;
    flags = 0;
    phash = p.phash;
    dhash = p.dhash;
    created_at = now;
    updated_at = now;
    nfaces = u32 (length faces);
  }

  -- The gallery with the file and the slot of a new image, before its faces.
  pub started : Gallery Float Index → Picture → List (DetectedFace Float) → ℕ → Gallery Float Index
  unfolding new_image_slot
  started g p faces now = record g {
    masters = set_sha g.masters p.sha (some p.bytes);
    images = push g.images (new_image_slot g.images.size p faces now);
    image_faces = push g.image_faces [];
  }

  pub insert :
      Config Float
      → Gallery Float Index
      → Picture
      → List (DetectedFace Float)
      → ℕ
      → ℕ × Gallery Float Index
  insert cfg g p faces now =
      let idx = g.images.size in
      let g' = append_faces fl us cfg (started g p faces now) (suc idx) faces now in
      (suc idx, record g' { sha_to_idx = set_sha g'.sha_to_idx p.sha (some idx) })

  -- The tombstone of image row `i`, before its faces are buried.
  pub unlisted : Gallery Float Index → ℕ → Gallery Float Index
  unlisted g i =
      let im = g.images.at i in
      record g {
        images = put g.images i (record im { flags = set_flag tombstone im.flags });
        sha_to_idx = set_sha g.sha_to_idx im.sha256 none;
      }

  -- remove_image of the image in row `i`.
  pub remove_row : Gallery Float Index → ℕ → ℕ → Gallery Float Index
  remove_row g i now =
      let g' = tombstone_faces fl us (unlisted g i) (g.image_faces.at i) now in
      record g' { masters = set_sha g'.masters (g.images.at i).sha256 none }

  pub remove_at : Gallery Float Index → Option ℕ → ℕ → Bool × Gallery Float Index
  remove_at g none now = (false, g)
  remove_at g (some i) now = (true, remove_row g i now)

  pub remove_image : Gallery Float Index → ℤ → ℕ → Bool × Gallery Float Index
  remove_image g image_id now = remove_at g (live_row g image_id) now

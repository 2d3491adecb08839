-- ===== src/Gallery/Faces.antt =====
-- Faces of src/store/gallery.cpp: the quality gate, append_face_locked and tombstone_face_locked.
pub mod Keep
pub mod Burial
use hvax.Prelude.{
  ℕ, zero, suc, ◌+◌, ◌-◌, Bool, ◌&&◌, List, [], ◌∷◌, ◌++◌, ltb, ◌==◌, if◌then◌else◌, Table, put,
  push, erase, ℤ, pos,
}
use hvax.Floats.{Floats}
use hvax.Hnsw.{Usearch, add, remove}
use hvax.Vectors.{quantize_i8}
use hvax.Types.{
  BBox, DetectedFace, FaceSlot, tombstone, low_quality, set_flag, slot_live, face_indexable, u32,
}
use hvax.Gallery.State.{Gallery, Config}
use hvax.Gallery.Identities.{try_join_identity, unassign}

module _ (fl : Floats) where
  open fl use {Float, lit, sub, mul, sqrt, lt, le}

  -- std::max(x, 0.f)
  pub at_least_zero : Float → Float
  at_least_zero x = if lt x (lit 0 1) then lit 0 1 else x

  pub face_size_px : BBox Float → Float
  unfolding at_least_zero
  face_size_px b = sqrt (mul (at_least_zero (sub b.x2 b.x1)) (at_least_zero (sub b.y2 b.y1)))

  pub passes_gate : Config Float → BBox Float → Float → Bool
  unfolding face_size_px
  passes_gate cfg box det_score =
      le cfg.index_min_face_px (face_size_px box) && le cfg.index_min_det det_score

  pub make_face_slot : ℕ → ℕ → DetectedFace Float → ℕ → FaceSlot Float
  make_face_slot face_id image_id f now = record {
    face_id = face_id;
    image_id = image_id;
    box = f.box;
    det_score = f.det_score;
    kps = f.kps;
    flags = 0;
    created_at = now;
    identity_ref = 0;
  }

-- Adds a row to the list of an image; there is none for the image 0 or one past the last.
unfoldable pub track_image_face : Table (List ℕ) → ℕ → ℕ → Table (List ℕ)
track_image_face image_faces zero row = image_faces
track_image_face image_faces (suc i) row = record image_faces {
  at = λ j.
      if ltb i image_faces.size && j == i
      then image_faces.at j ++ (u32 row ∷ [])
      else image_faces.at j;
}

-- Takes a row off the list of an image, likewise.
unfoldable pub untrack_image_face : Table (List ℕ) → ℕ → ℕ → Table (List ℕ)
untrack_image_face image_faces zero row = image_faces
untrack_image_face image_faces (suc i) row = record image_faces {
  at = λ j.
      if ltb i image_faces.size && j == i
      then erase (u32 row) (image_faces.at j)
      else image_faces.at j;
}

module _ (fl : Floats) (us : Usearch fl.Float) where
  open fl use {Float}
  open us use {Index}

  -- The rows that append_face_locked writes, and the index.
  pub stored : Config Float → Gallery Float Index → ℕ → DetectedFace Float → ℕ → Gallery Float Index
  unfolding make_face_slot
  stored cfg g image_id f now =
      let row = g.faces.size in
      let flags = if passes_gate fl cfg f.box f.det_score then 0 else set_flag low_quality 0 in
      record g {
        faces = push g.faces (record (make_face_slot fl row image_id f now) { flags = flags });
        embs = push g.embs f.embedding;
        embs_i8 = push g.embs_i8 (quantize_i8 fl f.embedding);
        flags_cache = push g.flags_cache flags;
        image_faces = track_image_face g.image_faces image_id row;
        hnsw = if face_indexable flags then add fl us g.hnsw row f.embedding else g.hnsw;
      }

  pub append_face :
      Config Float → Gallery Float Index → ℕ → DetectedFace Float → ℕ → Gallery Float Index
  append_face cfg g image_id f now =
      let row = g.faces.size in
      let g' = stored cfg g image_id f now in
      if face_indexable (g'.faces.at row).flags then try_join_identity fl us cfg g' row now else g'

  -- The part of tombstone_face_locked behind its early return and its call of unassign_locked.
  pub buried : Gallery Float Index → ℕ → Gallery Float Index
  buried g row =
      let f = g.faces.at row in
      record g {
        faces = put g.faces row (record f { flags = set_flag tombstone f.flags });
        flags_cache = put g.flags_cache row (set_flag tombstone (g.flags_cache.at row));
        hnsw = remove fl us g.hnsw row;
        image_faces = untrack_image_face g.image_faces f.image_id row;
      }

  pub tombstone_face : Gallery Float Index → ℕ → ℕ → Gallery Float Index
  tombstone_face g row now =
      if slot_live (g.faces.at row).flags then buried (unassign fl us g row now) row else g

  -- `for (f : faces) append_face_locked(image_id, f, now)`
  pub append_faces :
      Config Float → Gallery Float Index → ℕ → List (DetectedFace Float) → ℕ → Gallery Float Index
  append_faces cfg g image_id [] now = g
  append_faces cfg g image_id (f ∷ fs) now =
      append_faces cfg (append_face cfg g image_id f now) image_id fs now

  pub tombstone_faces : Gallery Float Index → List ℕ → ℕ → Gallery Float Index
  tombstone_faces g [] now = g
  tombstone_faces g (r ∷ rows) now = tombstone_faces (tombstone_face g r now) rows now

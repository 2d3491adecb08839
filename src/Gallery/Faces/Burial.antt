-- ===== src/Gallery/Faces/Burial.antt =====
-- Which faces tombstone_face_locked of src/store/gallery.cpp buries.
use hvax.Prelude.{ℕ, ◌≡◌, false, not, ◌&&◌, List, [], ◌∷◌, arith, ◌==◌, Bool-cases, inl, inr, count}
use hvax.Floats.{Floats}
use hvax.Hnsw.{Usearch}
use hvax.Types.{tombstone, set_flag, slot_live, has-set_tombstone}
use hvax.Gallery.Invariant.{G, shows}
use hvax.Gallery.Identities.Assign.{unassign-Kept}
use hvax.Gallery.Faces.{buried, tombstone_face, tombstone_faces}

module _ (fl : Floats) (us : Usearch fl.Float) where
  shows-tombstone_face :
      (g : G fl us) (row now i r : ℕ)
      → shows fl us (tombstone_face fl us g row now) i r ≡ (shows fl us g i r && not (r == row))
  unfolding tombstone_face buried
  shows-tombstone_face g row now i r =
      let k = unassign-Kept fl us g row now in
      elim (Bool-cases (slot_live (g.faces.at row).flags)) [
        | inl live ↦ rw live (
            ground (
              arith,
              k.size,
              k.flags r,
              k.flags row,
              k.image_id r,
              k.image_id row,
              buried_flags (g.faces.at row).flags,
            ))
        | inr dead ↦ rw dead (ground (arith, dead))
      ]
    where
      buried_flags : (w : ℕ) → slot_live (set_flag tombstone w) ≡ false
      buried_flags w = unfold slot_live in rw (has-set_tombstone w)

  pub shows-tombstone_faces :
      (g : G fl us) (rows : List ℕ) (now i r : ℕ)
      → shows fl us (tombstone_faces fl us g rows now) i r
        ≡ (shows fl us g i r && count r rows == 0)
  unfolding tombstone_faces
  shows-tombstone_faces g [] now i r = ground arith
  shows-tombstone_faces g (x ∷ rows) now i r = ground (
    arith,
    shows-tombstone_faces (tombstone_face fl us g x now) rows now i r,
    shows-tombstone_face g x now i r,
  )

-- ===== src/Gallery/Faces/Keep.antt =====
-- Appending and burying faces (src/store/gallery.cpp) keeps a gallery consistent.
use hvax.Prelude.{
  ℕ, zero, suc, ◌+◌, ◌%◌, ◌≤◌, ◌<◌, ◌≡◌, ◌^◌, refl, ◌∙◌, Bool, true, false, ◌&&◌, List, [], ◌∷◌,
  ◌==◌, if◌then◌else◌, count, count-erase, count-append, length, arith, All, Table, subst,
  Bool-cases, inl, inr,
}
use hvax.Floats.{Floats}
use hvax.Hnsw.{Usearch, contains-add, contains-remove}
use hvax.Types.{
  DetectedFace, face_indexable, slot_live, u32, tombstone, low_quality, set_flag, has-set_tombstone,
}
use hvax.Gallery.State.{Config}
use hvax.Gallery.Invariant.{
  G, IsConsistent, IsConsistent-but, SameShelf, SameShelf-refl, SameShelf-trans, Follows,
  Follows-trans,
}
use hvax.Gallery.Identities.{unassign}
use hvax.Gallery.Identities.Assign.{
  Kept-shelf, unassign-Kept, ref-unassign, unassign-IsConsistent, try_join_identity-IsConsistent,
  try_join_identity-Kept,
}
use hvax.Gallery.Faces.{
  passes_gate, make_face_slot, track_image_face, untrack_image_face, stored, append_face, buried,
  tombstone_face, append_faces, tombstone_faces,
}

-- A new face is live, whichever way the gate decides.
live_gated : (pass : Bool) → slot_live (if pass then 0 else set_flag low_quality 0) ≡ true
unfolding slot_live set_flag
live_gated true = refl
live_gated false = refl

module _ (fl : Floats) (us : Usearch fl.Float) where
  -- The list of an image with the new row, and without it.
  count-track :
      (lists : Table (List ℕ)) (i row j r : ℕ)
      → row < 2 ^ 32
      → i < lists.size
      → count r ((track_image_face lists (suc i) row).at j)
        ≡ count r (lists.at j) + (if j == i && row == r then 1 else 0)
  unfolding track_image_face u32
  count-track lists i row j r small inside =
      let e : row % 2 ^ 32 ≡ row = omega arith in
      rw e (ground (arith, count-append r (lists.at j) (row ∷ [])))

  module _ (cfg : Config fl.Float) (g : G fl us) (i : ℕ) (f : DetectedFace fl.Float) (now : ℕ)
      (c : IsConsistent fl us g) (room : g.faces.size < 2 ^ 32) (image : i < g.images.size) where
    stored-IsConsistent : IsConsistent fl us (stored fl us cfg g (suc i) f now)
    unfolding stored make_face_slot
    stored-IsConsistent = record {
      aligned = record {
        embs = omega (arith, c.aligned.embs);
        embs_i8 = omega (arith, c.aligned.embs_i8);
        flags_cache = omega (arith, c.aligned.flags_cache);
        image_faces = unfold track_image_face in c.aligned.image_faces;
        members = c.aligned.members;
        hidden = c.aligned.hidden;
        tallied = c.aligned.tallied;
        centroids = c.aligned.centroids;
        rows_fit = omega arith;
      };
      membership = record {
        listed = λ id r h. ground (arith, c.membership.listed id r);
        in_range = λ r h. ground (arith, c.membership.in_range r);
        indexable = λ r h. ground (arith, c.membership.indexable r);
      };
      counted = λ id h. record { size = (c.counted id h).size; live = (c.counted id h).live };
      mirrored = c.mirrored;
      faces = record {
        cached = λ r h. ground (arith, c.faces.cached r, c.aligned.flags_cache);
        shown = λ j r h. ground (
          arith,
          count-track g.image_faces i g.faces.size j r room (omega (arith, c.aligned.image_faces)),
          c.faces.shown j r,
          live,
        );
        on_image = λ r h. ground (arith, c.faces.on_image r);
        indexed = λ r.
            ground (arith, c.faces.indexed r, contains-add fl us g.hnsw g.faces.size f.embedding r);
      };
    }
      where
        live :
            slot_live (if passes_gate fl cfg f.box f.det_score then 0 else set_flag low_quality 0)
            ≡ true
        live = live_gated (passes_gate fl cfg f.box f.det_score)

    stored-SameShelf : SameShelf fl us 1 g (stored fl us cfg g (suc i) f now)
    unfolding stored
    stored-SameShelf = record {
      grown = omega arith;
      bounded = omega arith;
      images = refl;
      sha_to_idx = refl;
      masters = refl;
    }

    -- A face appended to the image of row `i` keeps the gallery consistent, and is the only new row.
    pub append_face-Follows : Follows fl us 1 g (append_face fl us cfg g (suc i) f now)
    unfolding append_face
    append_face-Follows =
        let g' = stored fl us cfg g (suc i) f now in
        elim (Bool-cases (face_indexable (g'.faces.at g.faces.size).flags)) [
          | inl indexable ↦ rw indexable (
            try_join_identity-IsConsistent fl us cfg g' g.faces.size now stored-IsConsistent
                (unfold stored in omega arith) indexable,
            SameShelf-trans fl us 1 0 1 g g' _ (omega arith) stored-SameShelf
                (Kept-shelf fl us (try_join_identity-Kept fl us cfg g' g.faces.size now)),
          )
          | inr other ↦ rw other (stored-IsConsistent, stored-SameShelf)
        ]

  -- The faces of an image, appended one after the other.
  pub append_faces-Follows :
      (cfg : Config fl.Float) (g : G fl us) (i : ℕ) (fs : List (DetectedFace fl.Float)) (now : ℕ)
      → IsConsistent fl us g
      → g.faces.size + length fs ≤ 2 ^ 32
      → i < g.images.size
      → Follows fl us (length fs) g (append_faces fl us cfg g (suc i) fs now)
  unfolding append_faces
  append_faces-Follows cfg g i [] now c room image = (c, SameShelf-refl fl us 0 g)
  append_faces-Follows cfg g i (f ∷ fs) now c room image =
      let next = append_face fl us cfg g (suc i) f now in
      let step = append_face-Follows cfg g i f now c (omega arith) image in
      Follows-trans fl us 1 (length fs) (suc (length fs)) g next _ (omega arith) step (
        append_faces-Follows cfg next i fs now step.0 (omega (arith, step.1.bounded))
          (rw step.1.images image))

  count-untrack :
      (lists : Table (List ℕ)) (image_id row j r : ℕ)
      → row < 2 ^ 32
      → image_id ≤ lists.size
      → count r ((untrack_image_face lists image_id row).at j)
        ≡ (if image_id == suc j && r == row then 0 else count r (lists.at j))
  unfolding untrack_image_face u32
  count-untrack lists zero row j r small inside = ground arith
  count-untrack lists (suc i) row j r small inside =
      let e : row % 2 ^ 32 ≡ row = omega arith in
      rw e (ground (arith, count-erase r row (lists.at j)))

  size-untrack :
      (lists : Table (List ℕ)) (image_id row : ℕ)
      → (untrack_image_face lists image_id row).size ≡ lists.size
  unfolding untrack_image_face
  size-untrack lists zero row = refl
  size-untrack lists (suc i) row = refl

  buried_flags : (w : ℕ) → slot_live (set_flag tombstone w) ≡ false
  unfolding slot_live
  buried_flags w = rw (has-set_tombstone w)

  buried_indexable : (w : ℕ) → face_indexable (set_flag tombstone w) ≡ false
  unfolding face_indexable
  buried_indexable w = rw (has-set_tombstone w)

  -- Burying a face that has no identity.
  buried-IsConsistent :
      (g : G fl us) (row : ℕ)
      → IsConsistent fl us g
      → row < g.faces.size
      → (g.faces.at row).identity_ref ≡ 0
      → IsConsistent fl us (buried fl us g row)
  unfolding buried
  buried-IsConsistent g row c inside free = record {
    aligned = record {
      embs = c.aligned.embs;
      embs_i8 = c.aligned.embs_i8;
      flags_cache = c.aligned.flags_cache;
      image_faces =
          size-untrack g.image_faces (g.faces.at row).image_id row ∙ c.aligned.image_faces;
      members = c.aligned.members;
      hidden = c.aligned.hidden;
      tallied = c.aligned.tallied;
      centroids = c.aligned.centroids;
      rows_fit = c.aligned.rows_fit;
    };
    membership = record {
      listed = λ id r h. ground (arith, c.membership.listed id r h);
      in_range = λ r h. ground (arith, c.membership.in_range r h);
      indexable = λ r h. ground (arith, c.membership.indexable r h);
    };
    counted = λ id h. record { size = (c.counted id h).size; live = (c.counted id h).live };
    mirrored = c.mirrored;
    faces = record {
      cached = λ r h. ground (arith, c.faces.cached r h, c.faces.cached row inside);
      shown = λ j r h. ground (
        arith,
        c.faces.shown j r h,
        c.aligned.rows_fit,
        count-untrack g.image_faces (g.faces.at row).image_id row j r
            (omega (arith, c.aligned.rows_fit))
            (omega (arith, c.aligned.image_faces, (c.faces.on_image row inside).1)),
        buried_flags (g.faces.at row).flags,
      );
      on_image = λ r h. ground (arith, c.faces.on_image r h);
      indexed = λ r. ground (
        arith,
        c.faces.indexed r,
        contains-remove fl us g.hnsw row r,
        buried_indexable (g.faces.at row).flags,
      );
    };
  }

  -- Burying a face, which leaves its identity first, keeps the gallery consistent.
  pub tombstone_face-Follows :
      (g : G fl us) (row now : ℕ)
      → IsConsistent fl us g
      → row < g.faces.size
      → Follows fl us 0 g (tombstone_face fl us g row now)
  unfolding tombstone_face
  tombstone_face-Follows g row now c inside = elim (Bool-cases (slot_live (g.faces.at row).flags)) [
    | inl live ↦
        let g' = unassign fl us g row now in
        let k = unassign-Kept fl us g row now in
        rw live (
          buried-IsConsistent g' row
              (unassign-IsConsistent fl us g row now (IsConsistent-but fl us row c) inside)
              (rw k.size inside) (ref-unassign fl us g row now),
          SameShelf-trans fl us 0 0 0 g g' _ (omega arith) (Kept-shelf fl us k)
              (buried-SameShelf g' row),
        )
    | inr dead ↦ rw dead (c, SameShelf-refl fl us 0 g)
  ]
    where
      buried-SameShelf : (h : G fl us) (r : ℕ) → SameShelf fl us 0 h (buried fl us h r)
      buried-SameShelf h r =
          unfold buried in
          record {
            grown = omega arith;
            bounded = omega arith;
            images = refl;
            sha_to_idx = refl;
            masters = refl;
          }

  pub tombstone_faces-Follows :
      (g : G fl us) (rows : List ℕ) (now : ℕ)
      → IsConsistent fl us g
      → All (λ r. r < g.faces.size) rows
      → Follows fl us 0 g (tombstone_faces fl us g rows now)
  unfolding tombstone_faces
  tombstone_faces-Follows g [] now c a = (c, SameShelf-refl fl us 0 g)
  tombstone_faces-Follows g (r ∷ rows) now c a =
      let next = tombstone_face fl us g r now in
      let step = tombstone_face-Follows g r now c a.0 in
      Follows-trans fl us 0 0 0 g next _ (omega arith) step (
        tombstone_faces-Follows next rows now step.0
          (subst (λ n. All (λ k. k < n) rows) (omega (arith, step.1.grown, step.1.bounded)) a.1))

-- ===== src/Gallery/Curation/Moves.antt =====
-- Faces moved together from one identity to another: the loops of merge_identities, split_identity and
-- dissolve_identity of src/store/identity.cpp.
use hvax.Prelude.{
  ℕ, suc, ◌≤◌, ◌<◌, ◌≡◌, refl, true, ◌&&◌, ◌⊎◌, List, [], ◌∷◌, ltb, ◌==◌, if◌then◌else◌, arith,
  Table, count,
}
use hvax.Floats.{Floats}
use hvax.Hnsw.{Usearch}
use hvax.Types.{FaceSlot, face_indexable}
use hvax.Gallery.Invariant.{G, IsAligned, HasMembers, HasFaces}
use hvax.Gallery.Identities.{set_ref}
use hvax.Gallery.Curation.{set_refs}

module _ (fl : Floats) (us : Usearch fl.Float) where
  -- `set_refs` writes the reference of the rows it is given, and nothing else that matters.
  module _ (ref : ℕ) where
    pub ref-set_refs :
        (faces : Table (FaceSlot fl.Float)) (rows : List ℕ) (r : ℕ)
        → ((set_refs fl us faces rows ref).at r).identity_ref
          ≡ (if ltb 0 (count r rows) then ref else (faces.at r).identity_ref)
    unfolding set_refs set_ref
    ref-set_refs faces [] r = ground arith
    ref-set_refs faces (x ∷ rows) r =
        ground (arith, ref-set_refs (set_ref fl us faces x ref) rows r)

    pub flags-set_refs :
        (faces : Table (FaceSlot fl.Float)) (rows : List ℕ) (r : ℕ)
        → ((set_refs fl us faces rows ref).at r).flags ≡ (faces.at r).flags
    unfolding set_refs set_ref
    flags-set_refs faces [] r = refl
    flags-set_refs faces (x ∷ rows) r =
        ground (arith, flags-set_refs (set_ref fl us faces x ref) rows r)

    pub image_id-set_refs :
        (faces : Table (FaceSlot fl.Float)) (rows : List ℕ) (r : ℕ)
        → ((set_refs fl us faces rows ref).at r).image_id ≡ (faces.at r).image_id
    unfolding set_refs set_ref
    image_id-set_refs faces [] r = refl
    image_id-set_refs faces (x ∷ rows) r =
        ground (arith, image_id-set_refs (set_ref fl us faces x ref) rows r)

    pub size-set_refs :
        (faces : Table (FaceSlot fl.Float)) (rows : List ℕ)
        → (set_refs fl us faces rows ref).size ≡ faces.size
    unfolding set_refs set_ref
    size-set_refs faces [] = refl
    size-set_refs faces (x ∷ rows) = size-set_refs (set_ref fl us faces x ref) rows

  -- A gallery in which the faces `rows` got the reference `ref`, and the members the new lists.
  abbrev pub relisted : G fl us → List ℕ → ℕ → Table (List ℕ) → G fl us
  relisted g rows ref lists = record g { faces = set_refs fl us g.faces rows ref; members = lists }

  module _ (g : G fl us) (rows : List ℕ) (ref : ℕ) (lists : Table (List ℕ)) where
    pub relisted-IsAligned :
        lists.size ≡ g.members.size
        → IsAligned fl us g
        → IsAligned fl us (relisted g rows ref lists)
    relisted-IsAligned e a =
        let s = size-set_refs ref g.faces rows in
        record {
          embs = omega (arith, s, a.embs);
          embs_i8 = omega (arith, s, a.embs_i8);
          flags_cache = omega (arith, s, a.flags_cache);
          image_faces = a.image_faces;
          members = omega (arith, e, a.members);
          hidden = a.hidden;
          tallied = a.tallied;
          centroids = a.centroids;
          rows_fit = omega (arith, s, a.rows_fit);
        }

    pub relisted-HasFaces : HasFaces fl us g → HasFaces fl us (relisted g rows ref lists)
    relisted-HasFaces f = record {
      cached = λ r h.
          ground (
            arith,
            f.cached r,
            flags-set_refs ref g.faces rows r,
            size-set_refs ref g.faces rows,
            h,
          );
      shown = λ i r h. ground (
        arith,
        f.shown i r h,
        flags-set_refs ref g.faces rows r,
        image_id-set_refs ref g.faces rows r,
        size-set_refs ref g.faces rows,
      );
      on_image = λ r h. ground (
        arith,
        f.on_image r,
        image_id-set_refs ref g.faces rows r,
        size-set_refs ref g.faces rows,
        h,
      );
      indexed = λ r.
          ground
            (arith, f.indexed r, flags-set_refs ref g.faces rows r, size-set_refs ref g.faces rows);
    }

    -- The lists are still the inverse of the references, if that is what they were made to be.
    pub relisted-HasMembers :
        HasMembers fl us g
        → ref ≤ g.identities.size
        → ((r : ℕ)
            → r < g.faces.size
            → 0 < count r rows
            → (ref ≡ 0) ⊎ (face_indexable (g.faces.at r).flags ≡ true))
        → ((id r : ℕ)
            → id < g.identities.size
            → count r (lists.at id) ≡ (
                if ltb r g.faces.size
                  && (if ltb 0 (count r rows) then ref else (g.faces.at r).identity_ref) == suc id
                then 1
                else 0))
        → HasMembers fl us (relisted g rows ref lists)
    relisted-HasMembers m small allowed listed = record {
      listed = λ id r h.
          ground
            (arith, listed id r h, ref-set_refs ref g.faces rows r, size-set_refs ref g.faces rows);
      in_range = λ r h. ground (
        arith,
        m.in_range r,
        small,
        ref-set_refs ref g.faces rows r,
        size-set_refs ref g.faces rows,
        h,
      );
      indexable = λ r h. ground (
        arith,
        m.indexable r,
        allowed r,
        ref-set_refs ref g.faces rows r,
        flags-set_refs ref g.faces rows r,
        size-set_refs ref g.faces rows,
        h,
      );
    }

-- ===== src/Gallery/Counts/Listed.antt =====
-- Gallery::identities_of of src/store/gallery.cpp: which identities it lists.
use hvax.Prelude.{
  lt→leb, ℕ, zero, suc, ◌<◌, ◌≤◌, ◌≡◌, arith, Bool, true, false, ◌||◌, List, [], ◌∷◌, ltb, leb,
  ◌==◌, if◌then◌else◌, Table, count, count-append, pos, ◌∙◌,
}
use hvax.Floats.{Floats}
use hvax.Hnsw.{Usearch}
use hvax.Types.{FaceSlot}
use hvax.Gallery.Counts.{list_ref, identities_among, identities_of}
use hvax.Gallery.Invariant.{G}

-- Some face of the rows refers to identity `id`.
abbrev pub referred : {F : Type 0} → Table (FaceSlot F) → ℕ → List ℕ → Bool
referred faces id [] = false
referred faces id (r ∷ rows) = (faces.at r).identity_ref == suc id || referred faces id rows

list_ref_lem :
    (out : List ℕ) (ref id : ℕ)
    → count id out ≤ 1
    → (count id (list_ref out ref) ≤ 1)
      × (ltb 0 (count id (list_ref out ref)) ≡ (ltb 0 (count id out) || ref == suc id))
unfolding list_ref
list_ref_lem out zero id h = (h, ground arith)
list_ref_lem out (suc new) id h =
    let added = count-append id out (new ∷ []) in
    (ground (arith, added, h), ground (arith, added, h))

module _ (fl : Floats) (us : Usearch fl.Float) where
  identities_among_lem :
      (faces : Table (FaceSlot fl.Float)) (out rows : List ℕ) (id : ℕ)
      → count id out ≤ 1
      → (count id (identities_among fl us faces out rows) ≤ 1)
        × (ltb 0 (count id (identities_among fl us faces out rows))
            ≡ (ltb 0 (count id out) || referred faces id rows))
  unfolding identities_among
  identities_among_lem faces out [] id h = (h, ground arith)
  identities_among_lem faces out (r ∷ rows) id h =
      let ref = (faces.at r).identity_ref in
      let one = list_ref_lem out ref id h in
      let rest = identities_among_lem faces (list_ref out ref) rows id one.0 in
      (rest.0, rest.1 ∙ ground (arith, one.1))

  -- identities_of an image lists no identity twice, and an identity just if a face that is listed
  -- for the image refers to it.
  pub identities_of_lem :
      (g : G fl us) (i id : ℕ)
      → i < g.image_faces.size
      → (count id (identities_of fl us g (pos (suc i))) ≤ 1)
        × (ltb 0 (count id (identities_of fl us g (pos (suc i))))
            ≡ referred g.faces id (g.image_faces.at i))
  unfolding identities_of
  identities_of_lem g i id h = go (leb g.image_faces.size i) (lt→leb i g.image_faces.size h)
    where
      out : Bool → List ℕ
      out b = if b then [] else identities_among fl us g.faces [] (g.image_faces.at i)

      go :
          (b : Bool)
          → b ≡ false
          → (count id (out b) ≤ 1)
            × (ltb 0 (count id (out b)) ≡ referred g.faces id (g.image_faces.at i))
      go true e = ground (arith, e)
      go false e = identities_among_lem g.faces [] (g.image_faces.at i) id (omega arith)

-- ===== src/Gallery/Counts.antt =====
-- Counters and questions of src/store/gallery.cpp and src/store/identity.cpp that read a gallery.
mod Agree
mod Listed
mod Tests
use hvax.Prelude.{
  ℕ, zero, suc, ◌+◌, Bool, true, false, ◌&&◌, List, [], ◌∷◌, ◌++◌, ltb, leb, ◌==◌, if◌then◌else◌,
  max, Table, count, ℤ, pos, negsuc,
}
use hvax.Floats.{Floats}
use hvax.Hnsw.{Usearch}
use hvax.Types.{FaceSlot, IdentitySlot, has, low_quality, hidden_flag, slot_live, face_indexable}
use hvax.Gallery.State.{Gallery}
use hvax.Gallery.Identities.{identity_live}
use hvax.Gallery.Search.{row_hidden}
use hvax.Gallery.Invariant.{tally}

-- The largest size of a live identity among the first `n`.
unfoldable largest_among : Table IdentitySlot → ℕ → ℕ
largest_among identities zero = 0
largest_among identities (suc n) =
    let best = largest_among identities n in
    if slot_live (identities.at n).flags then max best (identities.at n).size else best

unfoldable is_hidden : IdentitySlot → Bool
is_hidden s = slot_live s.flags && has hidden_flag s.flags

-- The hidden ones of the identities i, i + 1, … below i + left.
unfoldable hidden_from : Table IdentitySlot → ℕ → ℕ → List IdentitySlot
unfolding is_hidden
hidden_from identities i zero = []
hidden_from identities i (suc left) =
    let rest = hidden_from identities (i + 1) left in
    if is_hidden (identities.at i) then identities.at i ∷ rest else rest

-- The identity of a reference is listed behind the others, unless it is there.
unfoldable list_ref : List ℕ → ℕ → List ℕ
list_ref out zero = out
list_ref out (suc id) = if ltb 0 (count id out) then out else out ++ (id ∷ [])

module _ (fl : Floats) (us : Usearch fl.Float) where
  open fl use {Float}
  open us use {Index}

  unfoldable pub live_faces : Gallery Float Index → ℕ
  live_faces g = tally (λ r. slot_live (g.flags_cache.at r)) g.flags_cache.size

  unfoldable pub low_quality_faces : Gallery Float Index → ℕ
  low_quality_faces g =
      tally (λ r. slot_live (g.flags_cache.at r) && has low_quality (g.flags_cache.at r))
        g.flags_cache.size

  pub live_images : Gallery Float Index → ℕ
  live_images g = tally (λ i. slot_live (g.images.at i).flags) g.images.size

  pub unassigned_faces : Gallery Float Index → ℕ
  unassigned_faces g =
      tally (λ r. face_indexable (g.faces.at r).flags && (g.faces.at r).identity_ref == 0)
        g.faces.size

  pub identity_count : Gallery Float Index → ℕ
  identity_count g = tally (λ id. slot_live (g.identities.at id).flags) g.identities.size

  pub largest_identity : Gallery Float Index → ℕ
  unfolding largest_among
  largest_identity g = largest_among g.identities g.identities.size

  unfoldable pub identity_hidden : Gallery Float Index → ℤ → Bool
  identity_hidden g (negsuc _) = false
  identity_hidden g (pos id) = identity_live fl us g (pos id) && g.hidden.at id

  unfoldable pub face_hidden : Gallery Float Index → ℤ → Bool
  face_hidden g (negsuc _) = false
  face_hidden g (pos row) = row_hidden fl us g row

  pub hidden_identities : Gallery Float Index → List IdentitySlot
  unfolding hidden_from
  hidden_identities g = hidden_from g.identities 0 g.identities.size

  pub hidden_identity_count : Gallery Float Index → ℕ
  hidden_identity_count g = g.hidden_count

  unfoldable identities_among : Table (FaceSlot Float) → List ℕ → List ℕ → List ℕ
  unfolding list_ref
  identities_among faces rows [] = rows
  identities_among faces out (r ∷ rows) =
      identities_among faces (list_ref out (faces.at r).identity_ref) rows

  -- No identities for an id that is out of range.
  unfoldable pub identities_of : Gallery Float Index → ℤ → List ℕ
  unfolding identities_among
  identities_of g (negsuc _) = []
  identities_of g (pos zero) = []
  identities_of g (pos (suc i)) =
      if leb g.image_faces.size i then [] else identities_among g.faces [] (g.image_faces.at i)

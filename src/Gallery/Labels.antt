-- ===== src/Gallery/Labels.antt =====
-- Batch clustering of src/store/identity.cpp, its writes: mark_repeat_images_locked and
-- apply_labels_locked. A loop over the rows below `n` is a recursion on `n`, which does the rows before
-- the last one first.
pub mod Keep
pub mod Lists
pub mod Sound
pub mod Repeats
mod Tests
use hvax.Prelude.{
  ℕ, zero, suc, ◌+◌, ◌-◌, Bool, true, false, not, ◌&&◌, ◌||◌, List, [], ◌∷◌, ◌++◌, ltb, ◌==◌,
  if◌then◌else◌, min, max, Table, put, filled, ℤ, pos, negsuc, sort,
}
use hvax.Floats.{Floats}
use hvax.Hnsw.{Usearch}
use hvax.Types.{
  FaceSlot, ImageSlot, repeat_identity, set_flag, clear_flag, slot_live, face_indexable, u32,
}
use hvax.Gallery.State.{Gallery}
use hvax.Gallery.Identities.{new_identity, recompute_identity, set_ref}
use hvax.Gallery.Invariant.{nonempty}

-- std::adjacent_find finds something.
unfoldable pub adjacent : List ℕ → Bool
adjacent [] = false
adjacent (x ∷ []) = false
adjacent (x ∷ y ∷ ys) = x == y || adjacent (y ∷ ys)

unfoldable pub add_id : ℕ → List ℕ → List ℕ
add_id zero ids = ids
add_id (suc id) ids = id ∷ ids

-- The identities of the rows.
unfoldable pub ids_on : {F : Type 0} → Table (FaceSlot F) → List ℕ → List ℕ
unfolding add_id
ids_on faces [] = []
ids_on faces (r ∷ rows) = add_id (faces.at r).identity_ref (ids_on faces rows)

-- (flags & ~kImageRepeatIdentity) | (repeat ? kImageRepeatIdentity : 0)
unfoldable pub marked : ℕ → Bool → ℕ
marked flags repeat =
    let w = clear_flag repeat_identity flags in if repeat then set_flag repeat_identity w else w

unfoldable pub mark_image : {F : Type 0} → Table (FaceSlot F) → List ℕ → ImageSlot → ImageSlot
unfolding adjacent ids_on marked
mark_image faces rows im =
    if slot_live im.flags
    then record im { flags = marked im.flags (adjacent (sort (ids_on faces rows))) }
    else im

unfoldable pub mark_below :
    {F : Type 0} → Table (FaceSlot F) → Table (List ℕ) → Table ImageSlot → ℕ → Table ImageSlot
unfolding mark_image
mark_below faces lists images zero = images
mark_below faces lists images (suc i) =
    put (mark_below faces lists images i) i (mark_image faces (lists.at i) (images.at i))

-- One more than the label, and 0 for no identity: the reference that a face gets.
unfoldable pub label_ref : ℤ → ℕ
label_ref (pos l) = suc l
label_ref (negsuc _) = 0

-- One more than the largest of the first `n` labels.
unfoldable pub room_for : Table ℤ → ℕ → ℕ
unfolding label_ref
room_for labels zero = 0
room_for labels (suc n) = max (room_for labels n) (label_ref (labels.at n))

unfoldable pub relabel_below : {F : Type 0} → Table (FaceSlot F) → Table ℤ → ℕ → Table (FaceSlot F)
unfolding label_ref
relabel_below faces labels zero = faces
relabel_below faces labels (suc i) =
    let before = relabel_below faces labels i in
    if slot_live (faces.at i).flags
    then put before i (record (faces.at i) { identity_ref = label_ref (labels.at i) })
    else before

-- Row `i` with the reference `ref` enters a list.
unfoldable pub relist : Table (List ℕ) → ℕ → Bool → ℕ → ℕ → Table (List ℕ)
relist lists c indexable i zero = lists
relist lists c indexable i (suc id) =
    if not indexable || not (ltb id c) then lists else put lists id (lists.at id ++ (u32 i ∷ []))

unfoldable pub relist_below :
    {F : Type 0} → Table (FaceSlot F) → ℕ → ℕ → Table (List ℕ) → Table (List ℕ)
unfolding relist
relist_below faces c zero lists = lists
relist_below faces c (suc i) lists =
    relist (relist_below faces c i lists) c (face_indexable (faces.at i).flags) i
      (faces.at i).identity_ref

module _ (fl : Floats) (us : Usearch fl.Float) where
  open fl use {Float}
  open us use {Index}

  unfoldable pub mark_repeat_images : Gallery Float Index → Gallery Float Index
  unfolding mark_below
  mark_repeat_images g = record g {
    images = mark_below g.faces g.image_faces g.images g.images.size;
  }

  unfoldable pub new_identities : Gallery Float Index → ℕ → ℕ → Gallery Float Index
  new_identities g zero now = g
  new_identities g (suc k) now = new_identity fl us (new_identities g k now) now

  -- The references and the member lists, before the statistics.
  unfoldable pub relabelled : Gallery Float Index → Table ℤ → ℕ → Gallery Float Index
  unfolding relabel_below relist_below
  relabelled g labels n =
      let faces = relabel_below g.faces labels (min n g.faces.size) in
      let c = g.identities.size in
      record g {
        faces = faces;
        members = relist_below faces c (min g.embs.size faces.size) (filled c []);
        hidden = record {
          size = c;
          at = λ id. if ltb id g.hidden.size then g.hidden.at id else false;
        };
      }

  unfoldable pub recompute_below : Gallery Float Index → ℕ → ℕ → Gallery Float Index
  recompute_below g zero now = g
  recompute_below g (suc id) now =
      let before = recompute_below g id now in
      if not (nonempty (before.members.at id)) && not (slot_live (before.identities.at id).flags)
      then before
      else recompute_identity fl us before id now

  unfoldable pub apply_labels : Gallery Float Index → Table ℤ → ℕ → ℕ → Gallery Float Index
  unfolding room_for new_identities relabelled recompute_below mark_repeat_images
  apply_labels g labels n now =
      let g₁ = new_identities g (room_for labels n - g.identities.size) now in
      let g₂ = relabelled g₁ labels n in
      mark_repeat_images (recompute_below g₂ g₂.identities.size now)

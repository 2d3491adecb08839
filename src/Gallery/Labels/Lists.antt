-- ===== src/Gallery/Labels/Lists.antt =====
-- The references and the lists that apply_labels_locked of src/store/identity.cpp makes, row by row.
use hvax.Prelude.{
  ℕ, zero, suc, ◌+◌, ◌^◌, ◌%◌, ◌≤◌, ◌<◌, ◌≡◌, refl, Bool, not, ◌&&◌, ◌||◌, List, [], ◌∷◌, ltb, ◌==◌,
  if◌then◌else◌, Table, ℤ, count, count-append, arith, Bool-cases, inl, inr,
}
use hvax.Types.{FaceSlot, slot_live, face_indexable, u32}
use hvax.Gallery.Labels.{label_ref, room_for, relabel_below, relist, relist_below}

-- What relabelling leaves, and the reference that it gives.
pub record IsRelabelled {F : Type 0} (faces : Table (FaceSlot F)) (labels : Table ℤ) (n r : ℕ)
    (faces' : Table (FaceSlot F)) : Type 0 where
  pub size : faces'.size ≡ faces.size
  pub flags : (faces'.at r).flags ≡ (faces.at r).flags
  pub image_id : (faces'.at r).image_id ≡ (faces.at r).image_id
  pub ref : (faces'.at r).identity_ref ≡ (
      if ltb r n && slot_live (faces.at r).flags
      then label_ref (labels.at r)
      else (faces.at r).identity_ref)

pub relabel_below-IsRelabelled :
    {F : Type 0} (faces : Table (FaceSlot F)) (labels : Table ℤ) (n r : ℕ)
    → IsRelabelled faces labels n r (relabel_below faces labels n)
unfolding relabel_below
relabel_below-IsRelabelled faces labels zero r = record {
  size = refl;
  flags = refl;
  image_id = refl;
  ref = ground arith;
}
relabel_below-IsRelabelled faces labels (suc n) r =
    let b = relabel_below-IsRelabelled faces labels n r in
    elim (Bool-cases (slot_live (faces.at n).flags)) [
      | inl live ↦ rw live (record {
        size = b.size;
        flags = ground (arith, b.flags);
        image_id = ground (arith, b.image_id);
        ref = ground (arith, b.ref, live);
      })
      | inr dead ↦ rw dead (record {
        size = b.size;
        flags = b.flags;
        image_id = b.image_id;
        ref = ground (arith, b.ref, dead);
      })
    ]

pub label_ref-room_for :
    (labels : Table ℤ) (n r : ℕ) → r < n → label_ref (labels.at r) ≤ room_for labels n
unfolding room_for
label_ref-room_for labels zero r h = ground (arith, h)
label_ref-room_for labels (suc n) r h = ground (arith, h, label_ref-room_for labels n r)

count-relist :
    (lists : Table (List ℕ)) (c : ℕ) (indexable : Bool) (i ref id r : ℕ)
    → i < 2 ^ 32
    → (count r ((relist lists c indexable i ref).at id)
        ≡ count r (lists.at id)
          + (if i == r && (ref == suc id && (indexable && ltb id c)) then 1 else 0))
      × ((relist lists c indexable i ref).size ≡ lists.size)
unfolding relist u32
count-relist lists c indexable i zero id r h = ground arith
count-relist lists c indexable i (suc new) id r h =
    let e : i % 2 ^ 32 ≡ i = omega arith in
    elim (Bool-cases (not indexable || not (ltb new c))) [
      | inl out ↦ rw out (ground (arith, out), refl)
      | inr in_ ↦ rw (in_, e) (ground (arith, in_, count-append r (lists.at id) (i ∷ [])), refl)
    ]

-- Row `r` stands in the list of an identity just if it refers to it and is indexable.
pub relist_below_lem :
    {F : Type 0} (faces : Table (FaceSlot F)) (c n : ℕ) (lists : Table (List ℕ)) (id r : ℕ)
    → n ≤ 2 ^ 32
    → (count r ((relist_below faces c n lists).at id)
        ≡ count r (lists.at id)
          + (if ltb r n
                && ((faces.at r).identity_ref == suc id
                    && (face_indexable (faces.at r).flags && ltb id c))
              then 1
              else 0))
      × ((relist_below faces c n lists).size ≡ lists.size)
unfolding relist_below
relist_below_lem faces c zero lists id r h = ground arith
relist_below_lem faces c (suc n) lists id r h =
    let before = relist_below_lem faces c n lists id r (omega (arith, h)) in
    let step =
      count-relist (relist_below faces c n lists) c (face_indexable (faces.at n).flags) n
        (faces.at n).identity_ref id r (omega (arith, h)) in
    (ground (arith, before.0, step.0), ground (arith, before.1, step.1))

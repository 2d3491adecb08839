-- ===== src/Gallery/Curation/Split.antt =====
-- split_identity of src/store/identity.cpp.
use hvax.Prelude.{
  ℕ, suc, ◌≤◌, ◌<◌, ◌≡◌, ◌^◌, refl, subst, Option, none, some, ◌>>=◌, false, ◌&&◌, List, [], ◌∷◌,
  ◌++◌, ltb, leb, ◌==◌, if◌then◌else◌, arith, count, count-append, ℤ, pos, negsuc, sort, unique,
  Table, put, Bool-cases, inl, inr, length,
}
use hvax.Prelude.Sort.Laws.{IsRising, unique-IsRising, count-unique, count-IsRising}
use hvax.Floats.{Floats}
use hvax.Hnsw.{Usearch}
use hvax.Types.{u32}
use hvax.Gallery.Invariant.{G, IsConsistent, IsConsistentBarring}
use hvax.Gallery.Identities.{recompute_identity, new_identity}
use hvax.Gallery.Identities.Create.{
  new_identity-IsConsistentBarring, size-new_identity, faces-new_identity, members-new_identity,
}
use hvax.Gallery.Identities.Recompute.{
  recompute-IsConsistent, recompute-IsConsistentBarring, faces-recompute,
}
use hvax.Gallery.Curation.{
  live_identity, pin, without, face_of_identity, moving_rows, split_off, split_rows, split_found,
  split_at, split_identity,
}
use hvax.Gallery.Curation.Slots.{pin-IsConsistent, live_identity_lem}
use hvax.Gallery.Curation.Moves.{
  relisted, relisted-IsAligned, relisted-HasFaces, relisted-HasMembers, ref-set_refs,
}

count-without :
    (r : ℕ) (moving xs : List ℕ)
    → count r (without moving xs) ≡ (if ltb 0 (count r moving) then 0 else count r xs)
unfolding without
count-without r moving [] = ground arith
count-without r moving (x ∷ xs) = ground (arith, count-without r moving xs)

module _ (fl : Floats) (us : Usearch fl.Float) where
  -- Each of the rows is that of a face of identity `id`.
  abbrev Members : G fl us → ℕ → List ℕ → Type 0
  Members g id rows =
      (r : ℕ) → 0 < count r rows → (r < g.faces.size) × ((g.faces.at r).identity_ref ≡ suc id)

  module _ (g : G fl us) (id : ℕ) (moving : List ℕ) (now : ℕ) (c : IsConsistent fl us g)
      (inside : id < g.identities.size) (rising : IsRising moving)
      (mine : Members g id moving) where
    abbrev nid : ℕ
    nid = g.identities.size

    abbrev fresh : G fl us
    fresh = new_identity fl us g now

    abbrev lists : Table (List ℕ)
    lists =
        put (put fresh.members nid (fresh.members.at nid ++ moving)) id
          (without moving (fresh.members.at id))

    abbrev parted : G fl us
    parted = relisted fl us fresh moving (suc nid) lists

    begun : IsConsistentBarring fl us nid fresh
    begun = new_identity-IsConsistentBarring fl us g now c

    parted-listed :
        (j r : ℕ)
        → j < fresh.identities.size
        → count r (lists.at j) ≡ (
            if ltb r fresh.faces.size
              && (if ltb 0 (count r moving) then suc nid else (fresh.faces.at r).identity_ref)
                == suc j
            then 1
            else 0)
    parted-listed j r h = rw (faces-new_identity fl us g now) (
        ground (
          arith,
          c.membership.listed j r,
          c.membership.in_range r,
          mine r,
          inside,
          c.aligned.members,
          count-IsRising r moving rising,
          count-append r (fresh.members.at nid) moving,
          count-without r moving (fresh.members.at id),
          members-new_identity fl us g now j,
          members-new_identity fl us g now id,
          members-new_identity fl us g now nid,
          size-new_identity fl us g now,
          h,
        ))

    pub split_off-IsConsistent : IsConsistent fl us (split_off fl us g id moving now)
    unfolding split_off
    split_off-IsConsistent =
        let u =
          recompute-IsConsistentBarring fl us parted id now nid
            (omega (arith, inside, size-new_identity fl us g now))
            (relisted-IsAligned fl us fresh moving (suc nid) lists refl begun.aligned)
            (relisted-HasMembers fl us fresh moving (suc nid) lists begun.membership
              (omega (arith, size-new_identity fl us g now))
              (λ r h n.
                rw (faces-new_identity fl us g now)
                  (ground (arith, c.membership.indexable r, mine r n)))
              parted-listed)
            (λ j h n n'. record {
              size = ground (arith, (begun.counted j h n).size, n, n');
              live = ground (arith, (begun.counted j h n).live, n, n');
            })
            begun.mirrored (relisted-HasFaces fl us fresh moving (suc nid) lists begun.faces) in
        let g₃ = recompute_identity fl us (recompute_identity fl us parted id now) nid now in
        pin-IsConsistent fl us (pin fl us g₃ id) nid (
          pin-IsConsistent fl us g₃ id (
            recompute-IsConsistent fl us (recompute_identity fl us parted id now) nid now u.aligned
              u.membership u.counted u.mirrored u.faces))

    -- The moved faces refer to the new identity, all others to what they did.
    ref-split_off :
        (r : ℕ)
        → ((split_off fl us g id moving now).faces.at r).identity_ref
          ≡ (if ltb 0 (count r moving) then suc nid else (g.faces.at r).identity_ref)
    unfolding split_off pin
    ref-split_off r =
        rw
          (
            faces-recompute fl us (recompute_identity fl us parted id now) nid now,
            faces-recompute fl us parted id now,
            faces-new_identity fl us g now,
          )
          (ref-set_refs fl us (suc nid) g.faces moving r)

  -- The faces of identity `id` whose ids were given.
  abbrev Found : G fl us → ℕ → Option (List ℕ) → Type 0
  Found g id none = Unit
  Found g id (some rows) = Members g id rows

  cons-Found :
      (g : G fl us) (id : ℕ) (o : Option ℕ) (os : Option (List ℕ))
      → g.faces.size ≤ 2 ^ 32
      → ((r : ℕ) → o ≡ some r → (r < g.faces.size) × ((g.faces.at r).identity_ref ≡ suc id))
      → Found g id os
      → Found g id (o >>= λ row. os >>= λ rows. some (u32 row ∷ rows))
  unfolding u32
  cons-Found g id none os fits h b = tt
  cons-Found g id (some x) none fits h b = tt
  cons-Found g id (some x) (some rows) fits h b = λ r n. ground (arith, h x refl, b r, n, fits)

  face_of_identity_lem :
      (g : G fl us) (id : ℕ) (f : ℤ) (r : ℕ)
      → face_of_identity fl us g id f ≡ some r
      → (r < g.faces.size) × ((g.faces.at r).identity_ref ≡ suc id)
  unfolding face_of_identity
  face_of_identity_lem g id (negsuc n) r e = cc
  face_of_identity_lem g id (pos j) r e = (ground (arith, e), ground (arith, e))

  moving_rows-Found :
      (g : G fl us) (id : ℕ) (fs : List ℤ)
      → g.faces.size ≤ 2 ^ 32
      → Found g id (moving_rows fl us g id fs)
  unfolding moving_rows
  moving_rows-Found g id [] fits = λ r n. ground (arith, n)
  moving_rows-Found g id (f ∷ fs) fits =
      cons-Found g id (face_of_identity fl us g id f) (moving_rows fl us g id fs) fits
        (face_of_identity_lem g id f) (moving_rows-Found g id fs fits)

  -- What the rows are sorted for changes nothing of whose they are.
  sorted-Members :
      (g : G fl us) (id : ℕ) (rows : List ℕ) → Members g id rows → Members g id (unique (sort rows))
  sorted-Members g id rows m r n = m r (ground (arith, count-unique r rows, n))

  split_found-IsConsistent :
      (g : G fl us) (id : ℕ) (o : Option (List ℕ)) (now : ℕ)
      → IsConsistent fl us g
      → id < g.identities.size
      → Found g id o
      → IsConsistent fl us (split_found fl us g id o now).1
  unfolding split_found split_rows
  split_found-IsConsistent g id none now c inside found = c
  split_found-IsConsistent g id (some rows) now c inside found =
      let moving = unique (sort rows) in
      elim (Bool-cases (leb (length (g.members.at id)) (length moving))) [
        | inl all ↦ rw all c
        | inr part ↦ rw part (
            split_off-IsConsistent g id moving now c inside (unique-IsRising rows)
              (sorted-Members g id rows found))
      ]

  split_at-IsConsistent :
      (g : G fl us) (o : Option ℕ) (face_ids : List ℤ) (now : ℕ)
      → IsConsistent fl us g
      → ((id : ℕ) → o ≡ some id → id < g.identities.size)
      → IsConsistent fl us (split_at fl us g o face_ids now).1
  unfolding split_at
  split_at-IsConsistent g none face_ids now c h = c
  split_at-IsConsistent g (some id) [] now c h = c
  split_at-IsConsistent g (some id) (f ∷ fs) now c h =
      split_found-IsConsistent g id (moving_rows fl us g id (f ∷ fs)) now c (h id refl)
        (moving_rows-Found g id (f ∷ fs) c.aligned.rows_fit)

  -- Splitting an identity, whatever the ids, keeps the gallery consistent.
  pub split_identity-IsConsistent :
      (g : G fl us) (identity_id : ℤ) (face_ids : List ℤ) (now : ℕ)
      → IsConsistent fl us g
      → IsConsistent fl us (split_identity fl us g identity_id face_ids now).1
  unfolding split_identity
  split_identity-IsConsistent g identity_id face_ids now c =
      split_at-IsConsistent g (live_identity fl us g identity_id) face_ids now c
        (λ id e. (live_identity_lem fl us g identity_id id e).0)

  -- A split of a live identity at some of its faces, not all, answers the id of a new identity. The
  -- faces named refer to it afterwards, and every other face to what it referred to.
  pub split_identity_lem :
      (g : G fl us) (identity_id f : ℤ) (fs : List ℤ) (now id : ℕ) (rows : List ℕ)
      → IsConsistent fl us g
      → live_identity fl us g identity_id ≡ some id
      → moving_rows fl us g id (f ∷ fs) ≡ some rows
      → length (unique (sort rows)) < length (g.members.at id)
      → let r = split_identity fl us g identity_id (f ∷ fs) now in
        (r.0 ≡ some g.identities.size)
        × ((j : ℕ)
            → (r.1.faces.at j).identity_ref ≡ (
                if ltb 0 (count j rows)
                then suc g.identities.size
                else (g.faces.at j).identity_ref))
  unfolding split_identity split_at split_found split_rows
  split_identity_lem g identity_id f fs now id rows c live found some_left =
      let moving = unique (sort rows) in
      let mine = subst (Found g id) found (moving_rows-Found g id (f ∷ fs) c.aligned.rows_fit) in
      let part : leb (length (g.members.at id)) (length moving) ≡ false =
        ground (arith, some_left) in
      rw (live, found, part)
        (
          refl,
          λ j. rw (← count-unique j rows) (
              ref-split_off g id moving now c (live_identity_lem fl us g identity_id id live).0
                (unique-IsRising rows) (sorted-Members g id rows mine) j),
        )

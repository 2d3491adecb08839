-- ===== src/Gallery/Load/Members.antt =====
-- load_identity_state_locked of src/store/identity.cpp: on the files of a consistent gallery it makes
-- the member lists and the hidden mirror that the gallery had, and repairs nothing.
use hvax.Prelude.{
  ℕ, zero, suc, ◌+◌, ◌≤◌, ◌<◌, ◌^◌, ◌%◌, ◌≡◌, refl, sym, ap, subst, ◌∙◌, inl, inr, ◌⊎◌, arith, Bool,
  true, false, not, ◌&&◌, List, [], ◌∷◌, ◌++◌, ltb, ◌==◌, if◌then◌else◌, Table, put, count,
  count-append, lt→ltb, length,
}
use hvax.Floats.{Floats}
use hvax.Hnsw.{Usearch}
use hvax.Types.{FaceSlot, IdentitySlot, has, hidden_flag, slot_live, face_indexable, u32}
use hvax.Gallery.Invariant.{G, tally}
use hvax.Gallery.Identities.{refresh_centroid_norm, recompute_identity}
use hvax.Gallery.Load.{
  hidden_below, hidden_count_below, load_member, load_face, load_faces, load_identity,
  load_identities,
}

pub hidden_below_lem :
    (identities : Table IdentitySlot) (n : ℕ) (t : Table Bool) (id : ℕ)
    → ((hidden_below identities n t).at id ≡ (
        if ltb id n
          && (slot_live (identities.at id).flags && has hidden_flag (identities.at id).flags)
        then true
        else t.at id))
      × ((hidden_below identities n t).size ≡ t.size)
unfolding hidden_below
hidden_below_lem identities zero t id = ground arith
hidden_below_lem identities (suc n) t id = ground (arith, hidden_below_lem identities n t id)

pub hidden_count_lem :
    (identities : Table IdentitySlot) (f : ℕ → Bool) (n : ℕ)
    → ((id : ℕ)
        → id < n
        → f id ≡ (slot_live (identities.at id).flags && has hidden_flag (identities.at id).flags))
    → hidden_count_below identities n ≡ tally f n
unfolding hidden_count_below
hidden_count_lem identities f zero h = refl
hidden_count_lem identities f (suc n) h =
    ground (
      arith,
      h n,
      hidden_count_lem identities f n (λ (id : ℕ) (k : id < n). h id (omega (arith, k))),
    )

-- The list of the identity with the reference `suc id` gets row `n`.
listed : Table (List ℕ) → ℕ → ℕ → Table (List ℕ)
listed lists n zero = lists
listed lists n (suc id) = put lists id (lists.at id ++ (u32 n ∷ []))

-- The member lists that the faces below `n` make.
pub members_below : {F : Type 0} → Table (FaceSlot F) → ℕ → Table (List ℕ) → Table (List ℕ)
members_below faces zero lists = lists
members_below faces (suc n) lists = listed (members_below faces n lists) n (faces.at n).identity_ref

count-listed :
    (lists : Table (List ℕ)) (n ref id r : ℕ)
    → n < 2 ^ 32
    → (count r ((listed lists n ref).at id)
        ≡ count r (lists.at id) + (if ref == suc id && n == r then 1 else 0))
      × ((listed lists n ref).size ≡ lists.size)
unfolding listed u32
count-listed lists n zero id r h = ground arith
count-listed lists n (suc new) id r h =
    let e : n % 2 ^ 32 ≡ n = omega arith in
    (rw e (ground (arith, count-append r (lists.at id) (n ∷ []))), refl)

pub members_below_lem :
    {F : Type 0} (faces : Table (FaceSlot F)) (n : ℕ) (lists : Table (List ℕ)) (id r : ℕ)
    → n ≤ 2 ^ 32
    → (count r ((members_below faces n lists).at id)
        ≡ count r (lists.at id) + (if ltb r n && (faces.at r).identity_ref == suc id then 1 else 0))
      × ((members_below faces n lists).size ≡ lists.size)
unfolding members_below
members_below_lem faces zero lists id r h = ground arith
members_below_lem faces (suc n) lists id r h = ground (
  arith,
  members_below_lem faces n lists id r (omega (arith, h)),
  count-listed (members_below faces n lists) n (faces.at n).identity_ref id r (omega (arith, h)),
)

module _ (fl : Floats) (us : Usearch fl.Float) where
  -- The face `i` either has no reference, or is live and indexable and refers to a live identity.
  abbrev pub Referred : G fl us → ℕ → Type 0
  Referred g i =
      ((g.faces.at i).identity_ref ≡ 0)
      ⊎ ((id : ℕ) × ((g.faces.at i).identity_ref ≡ suc id)
          × (id < g.identities.size)
          × (slot_live (g.identities.at id).flags ≡ true)
          × (slot_live (g.faces.at i).flags ≡ true)
          × (face_indexable (g.faces.at i).flags ≡ true))

  load_member-live :
      (g : G fl us) (i id : ℕ)
      → id < g.identities.size
      → slot_live (g.identities.at id).flags ≡ true
      → face_indexable (g.faces.at i).flags ≡ true
      → load_member fl us g i (suc id) ≡ record g { members = listed g.members i (suc id) }
  unfolding load_member listed
  load_member-live g i id h live ok = rw (lt→ltb id g.identities.size h) (rw live (rw ok refl))

  load_face_none :
      (g : G fl us) (i ref : ℕ) (b : Bool)
      → ref ≡ 0
      → (if b then load_member fl us g i ref else g) ≡ record g { members = listed g.members i ref }
  unfolding load_member listed
  load_face_none g i zero true e = refl
  load_face_none g i zero false e = refl
  load_face_none g i (suc id) b e = ground (arith, e)

  load_face_some :
      (g : G fl us) (i ref id : ℕ) (b : Bool)
      → ref ≡ suc id
      → b ≡ true
      → id < g.identities.size
      → slot_live (g.identities.at id).flags ≡ true
      → face_indexable (g.faces.at i).flags ≡ true
      → (if b then load_member fl us g i ref else g) ≡ record g { members = listed g.members i ref }
  load_face_some g i ref id true e shown h live ok =
      subst (λ k. load_member fl us g i k ≡ record g { members = listed g.members i k }) (sym e)
        (load_member-live g i id h live ok)
  load_face_some g i ref id false e shown h live ok = ground (arith, shown)

  load_face_lem :
      (g : G fl us) (i : ℕ)
      → Referred g i
      → load_face fl us g i ≡ record g { members = listed g.members i (g.faces.at i).identity_ref }
  unfolding load_face
  load_face_lem g i (inl e) = load_face_none g i _ _ e
  load_face_lem g i (inr (id, e, h, live, shown, ok)) = load_face_some g i _ id _ e shown h live ok

  pub load_faces_lem :
      (n : ℕ) (g : G fl us)
      → ((i : ℕ) → i < n → Referred g i)
      → load_faces fl us n g ≡ record g { members = members_below g.faces n g.members }
  unfolding load_faces members_below
  load_faces_lem zero g h = refl
  load_faces_lem (suc n) g h =
      ap (λ b. load_face fl us b n) (load_faces_lem n g (λ i k. h i (omega (arith, k))))
      ∙ load_face_lem (record g { members = members_below g.faces n g.members }) n
          (h n (omega arith))

  load_identity_lem :
      (g : G fl us) (id now : ℕ)
      → (slot_live (g.identities.at id).flags ≡ true
          → (g.identities.at id).size ≡ length (g.members.at id))
      → (t : Table (List fl.Float)) × (load_identity fl us g id now
          ≡ record g { centroid_norm = t })
  unfolding load_identity
  load_identity_lem g id now h =
      go (slot_live (g.identities.at id).flags) refl
        ((g.identities.at id).size == length (g.members.at id)) refl
    where
      go :
          (b : Bool)
          → slot_live (g.identities.at id).flags ≡ b
          → (c : Bool) → ((g.identities.at id).size == length (g.members.at id)) ≡ c
          → (t : Table (List fl.Float)) × ((if not b
                then g
                else (if c
                    then record g {
                      centroid_norm = refresh_centroid_norm fl us g.centroids g.centroid_norm id;
                    }
                    else recompute_identity fl us g id now))
              ≡ record g { centroid_norm = t })
      go false eb c ec = (g.centroid_norm, refl)
      go true eb true ec = (refresh_centroid_norm fl us g.centroids g.centroid_norm id, refl)
      go true eb false ec = absurd (ground (arith, h eb, ec))

  -- Each live identity among the first `n` has as many members as its slot says.
  pub load_identities_lem :
      (n : ℕ) (g : G fl us) (now : ℕ)
      → ((id : ℕ)
          → id < n
          → slot_live (g.identities.at id).flags ≡ true
          → (g.identities.at id).size ≡ length (g.members.at id))
      → (t : Table (List fl.Float)) × (load_identities fl us n g now
          ≡ record g { centroid_norm = t })
  unfolding load_identities
  load_identities_lem zero g now h = (g.centroid_norm, refl)
  load_identities_lem (suc n) g now h =
      let before = load_identities_lem n g now (λ id k live. h id (omega (arith, k)) live) in
      let last =
        load_identity_lem (record g { centroid_norm = before.0 }) n now (h n (omega arith)) in
      (last.0, ap (λ b. load_identity fl us b n now) before.1 ∙ last.1)

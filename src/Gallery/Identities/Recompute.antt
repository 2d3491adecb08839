-- ===== src/Gallery/Identities/Recompute.antt =====
-- recompute_identity_locked of src/store/identity.cpp settles the slot of one identity, and nothing
-- else that the invariant speaks of.
use hvax.Prelude.{ℕ, ◌<◌, ◌≡◌, ◌≢◌, refl, List, [], ◌∷◌, length, arith, Table, sym, subst}
use native.Mathlib.Decide.{ℕ_discrete}
use hvax.Floats.{Floats}
use hvax.Hnsw.{Usearch}
use hvax.Types.{
  FaceSlot, IdentitySlot, has, hidden_flag, slot_live, u32, has-set_tombstone, has-clear_tombstone,
  has_hidden-set_tombstone, has_hidden-clear_tombstone,
}
use hvax.Gallery.Invariant.{
  G, nonempty, IsAligned, HasMembers, IsCounted, AllCounted, IsMirrored, HasFaces, IsConsistent,
  IsConsistentBarring, SameImages,
}
use hvax.Gallery.Identities.{new_slot, recompute_identity}

module _ (fl : Floats) (us : Usearch fl.Float) where
  module _ (faces : Table (FaceSlot fl.Float)) (embs : Table (List fl.Float)) (now : ℕ)
      (s : IdentitySlot) where
    size-new_slot :
        (rows : List ℕ) → (new_slot fl us faces embs now s rows).size ≡ u32 (length rows)
    unfolding new_slot u32
    size-new_slot [] = refl
    size-new_slot (r ∷ rows) = refl

    live-new_slot :
        (rows : List ℕ) → slot_live (new_slot fl us faces embs now s rows).flags ≡ nonempty rows
    unfolding new_slot slot_live
    live-new_slot [] = rw (has-set_tombstone s.flags)
    live-new_slot (r ∷ rows) = rw (has-clear_tombstone s.flags)

    hidden-new_slot :
        (rows : List ℕ)
        → has hidden_flag (new_slot fl us faces embs now s rows).flags ≡ has hidden_flag s.flags
    unfolding new_slot
    hidden-new_slot [] = has_hidden-set_tombstone s.flags
    hidden-new_slot (r ∷ rows) = has_hidden-clear_tombstone s.flags

  module _ (g : G fl us) (id now : ℕ) where
    pub size-recompute : (recompute_identity fl us g id now).identities.size ≡ g.identities.size
    unfolding recompute_identity
    size-recompute = ground arith

    pub faces-recompute : (recompute_identity fl us g id now).faces ≡ g.faces
    unfolding recompute_identity
    faces-recompute = refl

    pub recompute-SameImages : SameImages fl us g (recompute_identity fl us g id now)
    unfolding recompute_identity
    recompute-SameImages = (refl, refl, refl)

    -- The recomputed identity is counted, whatever it was.
    pub recompute-IsCounted_self :
        id < g.identities.size → IsCounted fl us (recompute_identity fl us g id now) id
    unfolding recompute_identity
    recompute-IsCounted_self h = record {
      size =
          ground (arith, size-new_slot g.faces g.embs now (g.identities.at id) (g.members.at id));
      live =
          ground (arith, live-new_slot g.faces g.embs now (g.identities.at id) (g.members.at id));
    }

    -- The others are as they were.
    pub recompute-IsCounted_ne :
        (j : ℕ)
        → j ≢ id
        → IsCounted fl us g j
        → IsCounted fl us (recompute_identity fl us g id now) j
    unfolding recompute_identity
    recompute-IsCounted_ne j n h = record {
      size = ground (arith, h.size);
      live = ground (arith, h.live);
    }

    pub recompute-AllCounted :
        ((j : ℕ) → j < g.identities.size → j ≢ id → IsCounted fl us g j)
        → AllCounted fl us (recompute_identity fl us g id now)
    recompute-AllCounted h j b = elim (ℕ_discrete j id) [
      | yes e ↦
          subst (IsCounted fl us (recompute_identity fl us g id now)) (sym e)
            (recompute-IsCounted_self (subst (λ k. k < g.identities.size) e b'))
      | no n ↦ recompute-IsCounted_ne j n (h j b' n)
    ]
      where
        b' : j < g.identities.size
        b' = rw (← size-recompute) b

    pub recompute-IsMirrored :
        IsMirrored fl us g → IsMirrored fl us (recompute_identity fl us g id now)
    unfolding recompute_identity
    recompute-IsMirrored h j b =
        ground
          (arith, h j, hidden-new_slot g.faces g.embs now (g.identities.at id) (g.members.at id))

    pub recompute-IsAligned :
        IsAligned fl us g → IsAligned fl us (recompute_identity fl us g id now)
    unfolding recompute_identity
    recompute-IsAligned a = record {
      embs = a.embs;
      embs_i8 = a.embs_i8;
      flags_cache = a.flags_cache;
      image_faces = a.image_faces;
      members = ground (arith, a.members);
      hidden = ground (arith, a.hidden);
      tallied = a.tallied;
      centroids = ground (arith, a.centroids);
      rows_fit = a.rows_fit;
    }

    pub recompute-HasMembers :
        HasMembers fl us g → HasMembers fl us (recompute_identity fl us g id now)
    unfolding recompute_identity
    recompute-HasMembers m = record {
      listed = λ j r h. ground (arith, m.listed j r);
      in_range = λ r h. ground (arith, m.in_range r h);
      indexable = m.indexable;
    }

    pub recompute-HasFaces : HasFaces fl us g → HasFaces fl us (recompute_identity fl us g id now)
    unfolding recompute_identity
    recompute-HasFaces f = record {
      cached = f.cached;
      shown = f.shown;
      on_image = f.on_image;
      indexed = f.indexed;
    }

    -- A gallery that is consistent but for the count of one identity is consistent after that
    -- identity is recomputed.
    pub recompute-IsConsistent :
        IsAligned fl us g
        → HasMembers fl us g
        → ((j : ℕ) → j < g.identities.size → j ≢ id → IsCounted fl us g j)
        → IsMirrored fl us g
        → HasFaces fl us g
        → IsConsistent fl us (recompute_identity fl us g id now)
    recompute-IsConsistent a m c h f = record {
      aligned = recompute-IsAligned a;
      membership = recompute-HasMembers m;
      counted = recompute-AllCounted c;
      mirrored = recompute-IsMirrored h;
      faces = recompute-HasFaces f;
    }

    -- Two identities are to be recomputed, and this is the first.
    pub recompute-IsConsistentBarring :
        (target : ℕ)
        → id < g.identities.size
        → IsAligned fl us g
        → HasMembers fl us g
        → ((j : ℕ) → j < g.identities.size → j ≢ target → j ≢ id → IsCounted fl us g j)
        → IsMirrored fl us g
        → HasFaces fl us g
        → IsConsistentBarring fl us target (recompute_identity fl us g id now)
    recompute-IsConsistentBarring target inside a m c h f = record {
      aligned = recompute-IsAligned a;
      membership = recompute-HasMembers m;
      counted = λ j b n. elim (ℕ_discrete j id) [
        | yes e ↦
            subst (IsCounted fl us (recompute_identity fl us g id now)) (sym e)
              (recompute-IsCounted_self inside)
        | no n' ↦ recompute-IsCounted_ne j n' (c j (rw (← size-recompute) b) n n')
      ];
      mirrored = recompute-IsMirrored h;
      faces = recompute-HasFaces f;
    }

-- ===== src/Gallery/Identities/Loose.antt =====
-- What is kept of a gallery while batch clustering rebuilds its member lists and statistics
-- (src/store/identity.cpp): all but the lists and the counts.
use hvax.Prelude.{
  ℕ, ◌≤◌, ◌<◌, ◌≡◌, ◌≢◌, refl, sym, ap, ◌∙◌, ◌⊎◌, true, false, not, ◌&&◌, ◌%◌, ◌^◌, List, [], ◌∷◌,
  arith, ltb, ◌==◌, Bool-cases, inl, inr, length,
}
use hvax.Floats.{Floats}
use hvax.Hnsw.{Usearch}
use hvax.Types.{has, slot_live, face_indexable, u32}
use hvax.Gallery.Invariant.{G, nonempty, IsAligned, IsCounted, IsMirrored, HasFaces, IsConsistent}
use hvax.Gallery.Identities.{new_identity, recompute_identity}
use hvax.Gallery.Identities.Create.{new_identity-IsAligned}

module _ (fl : Floats) (us : Usearch fl.Float) where
  -- A dead identity has the size 0.
  abbrev pub DeadEmpty : G fl us → Type 0
  DeadEmpty g =
      (id : ℕ)
      → id < g.identities.size
      → slot_live (g.identities.at id).flags ≡ false
      → (g.identities.at id).size ≡ 0

  pub record IsLoose (g : G fl us) : Type 0 where
    pub aligned : IsAligned fl us g
    pub in_range : (r : ℕ) → r < g.faces.size → (g.faces.at r).identity_ref ≤ g.identities.size
    pub indexable :
        (r : ℕ)
        → r < g.faces.size
        → ((g.faces.at r).identity_ref ≡ 0) ⊎ (face_indexable (g.faces.at r).flags ≡ true)
    pub mirrored : IsMirrored fl us g
    pub faces : HasFaces fl us g
    pub dead : DeadEmpty g

  pub IsCounted-dead :
      (g : G fl us) (id : ℕ)
      → IsCounted fl us g id
      → slot_live (g.identities.at id).flags ≡ false
      → (g.identities.at id).size ≡ 0
  IsCounted-dead g id c e = go (g.members.at id) c.size c.live
    where
      go :
          (rows : List ℕ)
          → (g.identities.at id).size ≡ u32 (length rows)
          → slot_live (g.identities.at id).flags ≡ nonempty rows
          → (g.identities.at id).size ≡ 0
      go [] s l = unfold u32 in s
      go (r ∷ rows) s l = ground (arith, e, l)

  -- The other way: what has no members and is dead with the size 0.
  pub dead-IsCounted :
      (g : G fl us) (id : ℕ)
      → (g.identities.at id).size ≡ 0
      → (not (nonempty (g.members.at id)) && not (slot_live (g.identities.at id).flags)) ≡ true
      → IsCounted fl us g id
  unfolding u32
  dead-IsCounted g id z e = go (g.members.at id) refl
    where
      go : (rows : List ℕ) → g.members.at id ≡ rows → IsCounted fl us g id
      go [] m = record {
        size = z ∙ ap (λ rows. length rows % 2 ^ 32) (sym m);
        live = ground (arith, e);
      }
      go (r ∷ rows) m = absurd (ground (arith, e, ap nonempty m))

  pub IsConsistent-IsLoose : (g : G fl us) → IsConsistent fl us g → IsLoose g
  IsConsistent-IsLoose g c = record {
    aligned = c.aligned;
    in_range = c.membership.in_range;
    indexable = c.membership.indexable;
    mirrored = c.mirrored;
    faces = c.faces;
    dead = λ id h e. IsCounted-dead g id (c.counted id h) e;
  }

  pub new_identity-IsLoose :
      (g : G fl us) (now : ℕ) → IsLoose g → IsLoose (new_identity fl us g now)
  unfolding new_identity has slot_live
  new_identity-IsLoose g now l = record {
    aligned = new_identity-IsAligned fl us g now l.aligned;
    in_range = λ r h. omega (arith, l.in_range r h);
    indexable = l.indexable;
    mirrored = λ j h. ground (arith, l.mirrored j, l.aligned.hidden, h);
    faces = record {
      cached = l.faces.cached;
      shown = l.faces.shown;
      on_image = l.faces.on_image;
      indexed = l.faces.indexed;
    };
    dead = λ j h e. ground (arith, l.dead j, h, e);
  }

  -- A recomputed identity changes no other slot and no list.
  pub recompute-identity_ne :
      (g : G fl us) (id now j : ℕ)
      → j ≢ id
      → (recompute_identity fl us g id now).identities.at j ≡ g.identities.at j
  unfolding recompute_identity
  recompute-identity_ne g id now j n = elim (Bool-cases (ltb id g.identities.size)) [
    | inl inside ↦ rw (inside, ne) refl
    | inr outside ↦ rw outside refl
  ]
    where
      ne : (j == id) ≡ false
      ne = ground (arith, n)

  pub members-recompute :
      (g : G fl us) (id now : ℕ) → (recompute_identity fl us g id now).members ≡ g.members
  unfolding recompute_identity
  members-recompute g id now = refl

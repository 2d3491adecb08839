-- ===== src/Gallery/Identities/Assign.antt =====
-- assign_locked, unassign_locked and try_join_identity_locked of src/store/identity.cpp keep a
-- gallery consistent.
use native.Mathlib.Decide.{ℕ_discrete}
use hvax.Prelude.{
  ℕ, zero, suc, ◌+◌, ◌≤◌, ◌<◌, ◌≡◌, refl, ◌∙◌, Bool, true, false, ◌&&◌, List, [], ◌∷◌, ◌++◌, leb,
  ◌==◌, if◌then◌else◌, count-erase, count-append, arith, put, Bool-cases, inl, inr, ℤ, pos, negsuc,
  erase,
}
use hvax.Floats.{Floats}
use hvax.Hnsw.{Usearch}
use hvax.Vectors.{dot512}
use hvax.Types.{face_indexable, slot_live, u32}
use hvax.Gallery.State.{Config}
use hvax.Gallery.Invariant.{
  G, IsAligned, HasMembers, IsConsistent, IsConsistentBut, IsConsistent-but, SameShelf,
}
use hvax.Gallery.Identities.{
  set_ref, unassign_from, unassign, join, assign, recompute_identity, join_if_near,
  try_join_identity, best_identity, best_loop,
}
use hvax.Gallery.Identities.Recompute.{recompute-IsConsistent}

module _ (fl : Floats) (us : Usearch fl.Float) where
  module _ (g : G fl us) (row now : ℕ) (c : IsConsistentBut fl us row g)
      (inside : row < g.faces.size) where
    unassign_from-IsConsistent :
        (ref : ℕ)
        → (g.faces.at row).identity_ref ≡ ref
        → IsConsistent fl us (unassign_from fl us g row ref now)
    unfolding unassign_from set_ref
    unassign_from-IsConsistent zero e = record {
      aligned = c.aligned;
      membership = record {
        listed = c.listed;
        in_range = c.in_range;
        indexable = λ r h. elim (ℕ_discrete r row) [
          | yes same ↦ inl (rw same e)
          | no other ↦ c.indexable r h other
        ];
      };
      counted = c.counted;
      mirrored = c.mirrored;
      faces = c.faces;
    }
    unassign_from-IsConsistent (suc id) e = rw known (
        recompute-IsConsistent fl us g' id now
          (record {
            embs = a.embs;
            embs_i8 = a.embs_i8;
            flags_cache = a.flags_cache;
            image_faces = a.image_faces;
            members = a.members;
            hidden = a.hidden;
            tallied = a.tallied;
            centroids = a.centroids;
            rows_fit = a.rows_fit;
          })
          (record {
            listed = λ j r h. ground (arith, c.listed j r, count-erase r row (g.members.at id), e);
            in_range = λ r h. ground (arith, c.in_range r h);
            indexable = λ r h. elim (ℕ_discrete r row) [
              | yes same ↦ inl (ground arith)
              | no other ↦ ground (arith, c.indexable r h other)
            ];
          })
          (λ j h n. record {
            size = ground (arith, (c.counted j h).size, n);
            live = ground (arith, (c.counted j h).live, n);
          })
          c.mirrored
          (record {
            cached = λ r h. ground (arith, c.faces.cached r h);
            shown = λ i r h. ground (arith, c.faces.shown i r h);
            on_image = λ r h. ground (arith, c.faces.on_image r h);
            indexed = λ r. ground (arith, c.faces.indexed r);
          }))
      where
        a : IsAligned fl us g
        a = c.aligned

        known : leb g.members.size id ≡ false
        known = ground (arith, c.in_range row inside, a.members, e)

        g' : G fl us
        g' = record g {
          faces = set_ref fl us g.faces row 0;
          members = put g.members id (erase row (g.members.at id));
        }

    -- Taking a face out of its identity keeps the gallery consistent.
    pub unassign-IsConsistent : IsConsistent fl us (unassign fl us g row now)
    unfolding unassign
    unassign-IsConsistent = unassign_from-IsConsistent (g.faces.at row).identity_ref refl

  -- What membership changes leave alone.
  pub record Kept (g g' : G fl us) : Type 0 where
    pub size : g'.faces.size ≡ g.faces.size
    pub identities : g'.identities.size ≡ g.identities.size
    pub images : g'.images ≡ g.images
    pub embs : g'.embs ≡ g.embs
    pub hnsw : g'.hnsw ≡ g.hnsw
    pub image_faces : g'.image_faces ≡ g.image_faces
    pub flags_cache : g'.flags_cache ≡ g.flags_cache
    pub sha_to_idx : g'.sha_to_idx ≡ g.sha_to_idx
    pub masters : g'.masters ≡ g.masters
    pub flags : (r : ℕ) → (g'.faces.at r).flags ≡ (g.faces.at r).flags
    pub image_id : (r : ℕ) → (g'.faces.at r).image_id ≡ (g.faces.at r).image_id

  -- What `unassign` leaves alone, and that the face it names has no identity any more.
  module _ (g : G fl us) (row now : ℕ) where
    ref-unassign_from :
        (ref : ℕ)
        → (g.faces.at row).identity_ref ≡ ref
        → ((unassign_from fl us g row ref now).faces.at row).identity_ref ≡ 0
    unfolding unassign_from set_ref recompute_identity
    ref-unassign_from zero e = e
    ref-unassign_from (suc id) e = ground arith

    pub ref-unassign : ((unassign fl us g row now).faces.at row).identity_ref ≡ 0
    unfolding unassign
    ref-unassign = ref-unassign_from (g.faces.at row).identity_ref refl

    unassign_from-Kept : (ref : ℕ) → Kept g (unassign_from fl us g row ref now)
    unfolding unassign_from set_ref recompute_identity
    unassign_from-Kept zero = record {
      size = refl;
      identities = refl;
      images = refl;
      embs = refl;
      hnsw = refl;
      image_faces = refl;
      flags_cache = refl;
      sha_to_idx = refl;
      masters = refl;
      flags = λ r. refl;
      image_id = λ r. refl;
    }
    unassign_from-Kept (suc id) = record {
      size = ground arith;
      identities = ground arith;
      images = ground arith;
      embs = ground arith;
      hnsw = ground arith;
      image_faces = ground arith;
      flags_cache = ground arith;
      sha_to_idx = ground arith;
      masters = ground arith;
      flags = λ r. ground arith;
      image_id = λ r. ground arith;
    }

    pub unassign-Kept : Kept g (unassign fl us g row now)
    unfolding unassign
    unassign-Kept = unassign_from-Kept (g.faces.at row).identity_ref

  pub Kept-shelf : {g g' : G fl us} → Kept g g' → SameShelf fl us 0 g g'
  Kept-shelf k = record {
    grown = omega (arith, k.size);
    bounded = omega (arith, k.size);
    images = k.images;
    sha_to_idx = k.sha_to_idx;
    masters = k.masters;
  }

  pub recompute-Kept : (g : G fl us) (id now : ℕ) → Kept g (recompute_identity fl us g id now)
  unfolding recompute_identity
  recompute-Kept g id now = record {
    size = refl;
    identities = ground arith;
    images = refl;
    embs = refl;
    hnsw = refl;
    image_faces = refl;
    flags_cache = refl;
    sha_to_idx = refl;
    masters = refl;
    flags = λ r. refl;
    image_id = λ r. refl;
  }

  join-Kept : (g : G fl us) (row id now : ℕ) → Kept g (join fl us g row id now)
  unfolding join set_ref recompute_identity
  join-Kept g row id now = record {
    size = ground arith;
    identities = ground arith;
    images = ground arith;
    embs = ground arith;
    hnsw = ground arith;
    image_faces = ground arith;
    flags_cache = ground arith;
    sha_to_idx = refl;
    masters = refl;
    flags = λ r. ground arith;
    image_id = λ r. ground arith;
  }

  Kept-trans : (g h k : G fl us) → Kept g h → Kept h k → Kept g k
  Kept-trans g h k p q = record {
    size = q.size ∙ p.size;
    identities = q.identities ∙ p.identities;
    images = q.images ∙ p.images;
    embs = q.embs ∙ p.embs;
    hnsw = q.hnsw ∙ p.hnsw;
    image_faces = q.image_faces ∙ p.image_faces;
    flags_cache = q.flags_cache ∙ p.flags_cache;
    sha_to_idx = q.sha_to_idx ∙ p.sha_to_idx;
    masters = q.masters ∙ p.masters;
    flags = λ r. q.flags r ∙ p.flags r;
    image_id = λ r. q.image_id r ∙ p.image_id r;
  }

  pub Kept-refl : (g : G fl us) → Kept g g
  Kept-refl g = record {
    size = refl;
    identities = refl;
    images = refl;
    embs = refl;
    hnsw = refl;
    image_faces = refl;
    flags_cache = refl;
    sha_to_idx = refl;
    masters = refl;
    flags = λ r. refl;
    image_id = λ r. refl;
  }

  pub assign-Kept : (g : G fl us) (row id now : ℕ) → Kept g (assign fl us g row id now)
  unfolding assign
  assign-Kept g row id now = elim (Bool-cases ((g.faces.at row).identity_ref == suc id)) [
    | inl same ↦ rw same (Kept-refl g)
    | inr other ↦ rw other (
        Kept-trans g (unassign fl us g row now) _ (unassign-Kept g row now)
          (join-Kept (unassign fl us g row now) row id now))
  ]

  join_if_near-Kept :
      (cfg : Config fl.Float) (g : G fl us) (row now : ℕ) (id : ℤ) (s : fl.Float)
      → Kept g (join_if_near fl us cfg g row now id s)
  unfolding join_if_near
  join_if_near-Kept cfg g row now (negsuc n) s = Kept-refl g
  join_if_near-Kept cfg g row now (pos id) s = elim (Bool-cases (fl.le cfg.identity_join s)) [
    | inl near ↦ rw near (assign-Kept g row id now)
    | inr far ↦ rw far (Kept-refl g)
  ]

  pub try_join_identity-Kept :
      (cfg : Config fl.Float) (g : G fl us) (row now : ℕ)
      → Kept g (try_join_identity fl us cfg g row now)
  unfolding try_join_identity
  try_join_identity-Kept cfg g row now = elim (Bool-cases (g.identities.size == 0)) [
    | inl none ↦ rw none (Kept-refl g)
    | inr some ↦ rw some (join_if_near-Kept cfg g row now _ _)
  ]

  module _ (g : G fl us) (row id now : ℕ) (c : IsConsistent fl us g) (inside : row < g.faces.size)
      (known : id < g.identities.size)
      (indexable : face_indexable (g.faces.at row).flags ≡ true) where
    join-IsConsistent :
        (g.faces.at row).identity_ref ≡ 0 → IsConsistent fl us (join fl us g row id now)
    unfolding join set_ref u32
    join-IsConsistent e =
        recompute-IsConsistent fl us g' id now
          (record {
            embs = a.embs;
            embs_i8 = a.embs_i8;
            flags_cache = a.flags_cache;
            image_faces = a.image_faces;
            members = a.members;
            hidden = a.hidden;
            tallied = a.tallied;
            centroids = a.centroids;
            rows_fit = a.rows_fit;
          })
          (record {
            listed = λ j r h.
                ground
                  (arith, m.listed j r, small, count-append r (g.members.at id) (u32 row ∷ []), e);
            in_range = λ r h. ground (arith, m.in_range r h);
            indexable = λ r h. ground (arith, m.indexable r h);
          })
          (λ j h n. record {
            size = ground (arith, (c.counted j h).size, n);
            live = ground (arith, (c.counted j h).live, n);
          })
          c.mirrored
          (record {
            cached = λ r h. ground (arith, c.faces.cached r h);
            shown = λ i r h. ground (arith, c.faces.shown i r h);
            on_image = λ r h. ground (arith, c.faces.on_image r h);
            indexed = λ r. ground (arith, c.faces.indexed r);
          })
      where
        a : IsAligned fl us g
        a = c.aligned

        m : HasMembers fl us g
        m = c.membership

        small : u32 row ≡ row
        small = omega (arith, a.rows_fit)

        g' : G fl us
        g' = record g {
          faces = set_ref fl us g.faces row (suc id);
          members = put g.members id (g.members.at id ++ (u32 row ∷ []));
        }

  -- Putting an indexable face into an identity keeps the gallery consistent, whatever identity the
  -- face had before.
  pub assign-IsConsistent :
      (g : G fl us) (row id now : ℕ)
      → IsConsistent fl us g
      → row < g.faces.size
      → id < g.identities.size
      → face_indexable (g.faces.at row).flags ≡ true
      → IsConsistent fl us (assign fl us g row id now)
  unfolding assign
  assign-IsConsistent g row id now c inside known indexable =
      let k = unassign-Kept g row now in
      elim (Bool-cases ((g.faces.at row).identity_ref == suc id)) [
        | inl same ↦ rw same c
        | inr other ↦ rw other (
            join-IsConsistent (unassign fl us g row now) row id now
              (unassign-IsConsistent g row now (IsConsistent-but fl us row c) inside)
              (rw k.size inside) (rw k.identities known) (rw (k.flags row) indexable)
              (ref-unassign g row now))
      ]

  abbrev InRange : ℕ → ℤ → Type 0
  InRange n (negsuc _) = Unit
  InRange n (pos id) = id < n

  best_loop-InRange :
      (g : G fl us) (query : List fl.Float) (n i left : ℕ) (best : ℤ) (s : fl.Float)
      → i + left ≤ n
      → InRange n best
      → InRange n (best_loop fl us g query i left best s).0
  unfolding best_loop
  best_loop-InRange g query n i zero best s h r = r
  best_loop-InRange g query n i (suc left) best s h r =
      best_loop-InRange g query n (i + 1) left _ _ (omega arith) (
        pick
          (slot_live (g.identities.at i).flags && fl.lt s (dot512 fl query (g.centroid_norm.at i))))
    where
      pick : (b : Bool) → InRange n (if b then pos i else best)
      pick true = omega arith
      pick false = r

  join_if_near-IsConsistent :
      (cfg : Config fl.Float) (g : G fl us) (row now : ℕ) (id : ℤ) (s : fl.Float)
      → IsConsistent fl us g
      → row < g.faces.size
      → face_indexable (g.faces.at row).flags ≡ true
      → InRange g.identities.size id
      → IsConsistent fl us (join_if_near fl us cfg g row now id s)
  unfolding join_if_near
  join_if_near-IsConsistent cfg g row now (negsuc n) s c inside indexable r = c
  join_if_near-IsConsistent cfg g row now (pos id) s c inside indexable r =
      elim (Bool-cases (fl.le cfg.identity_join s)) [
        | inl near ↦ rw near (assign-IsConsistent g row id now c inside r indexable)
        | inr far ↦ rw far c
      ]

  -- The incremental assignment at ingest keeps the gallery consistent.
  pub try_join_identity-IsConsistent :
      (cfg : Config fl.Float) (g : G fl us) (row now : ℕ)
      → IsConsistent fl us g
      → row < g.faces.size
      → face_indexable (g.faces.at row).flags ≡ true
      → IsConsistent fl us (try_join_identity fl us cfg g row now)
  unfolding try_join_identity best_identity
  try_join_identity-IsConsistent cfg g row now c inside indexable =
      elim (Bool-cases (g.identities.size == 0)) [
        | inl none ↦ rw none c
        | inr some ↦ rw some (
            join_if_near-IsConsistent cfg g row now _ _ c inside indexable (
              best_loop-InRange g (g.embs.at row) g.identities.size 0 g.identities.size (negsuc 0)
                (fl.neg (fl.lit 2 1)) (omega arith) tt))
      ]

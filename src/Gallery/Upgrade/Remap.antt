-- ===== src/Gallery/Upgrade/Remap.antt =====
-- The loop over the matched pairs of Gallery::upgrade (src/store/gallery.cpp) keeps a gallery
-- consistent, though it changes flags before it takes faces out of their identities.
use native.Mathlib.Decide.{ℕ_discrete}
use hvax.Prelude.{
  ℕ, zero, suc, ◌<◌, ◌≡◌, refl, true, ◌||◌, Option, none, some, List, [], ◌∷◌, ◌==◌, arith, All,
  Bool-cases, inl, inr, ◌⊎◌, get_elem?, sym, subst,
}
use hvax.Floats.{Floats}
use hvax.Hnsw.{Usearch, contains-add, contains-remove, contains-update}
use hvax.Types.{DetectedFace, face_indexable, live-regated}
use hvax.Gallery.State.{Config}
use hvax.Gallery.Invariant.{
  G, IsConsistent, IsConsistentBut, SameShelf, SameShelf-refl, SameShelf-trans, Follows,
  Follows-trans,
}
use hvax.Gallery.Identities.{recompute_identity}
use hvax.Gallery.Identities.Recompute.{recompute-IsConsistent}
use hvax.Gallery.Identities.Assign.{
  Kept-shelf, recompute-Kept, unassign-Kept, unassign-IsConsistent, try_join_identity-IsConsistent,
  try_join_identity-Kept,
}
use hvax.Gallery.Faces.{passes_gate}
use hvax.Gallery.Upgrade.{
  refaced, remap_face, Pair, Matching, match_rows, match_step, match_pairs, recompute_all,
}

module _ (fl : Floats) (us : Usearch fl.Float) where
  -- A face that may have the identity it has ends the exception.
  settle :
      (row : ℕ) (g : G fl us)
      → IsConsistentBut fl us row g
      → ((g.faces.at row).identity_ref ≡ 0) ⊎ (face_indexable (g.faces.at row).flags ≡ true)
      → IsConsistent fl us g
  settle row g c allowed = record {
    aligned = c.aligned;
    membership = record {
      listed = c.listed;
      in_range = c.in_range;
      indexable = λ r h. elim (ℕ_discrete r row) [
        | yes same ↦ rw same allowed
        | no other ↦ c.indexable r h other
      ];
    };
    counted = c.counted;
    mirrored = c.mirrored;
    faces = c.faces;
  }

  module _ (cfg : Config fl.Float) (g : G fl us) (row : ℕ) (f : DetectedFace fl.Float) (now : ℕ)
      (c : IsConsistent fl us g) (inside : row < g.faces.size) where
    refaced-IsConsistentBut : IsConsistentBut fl us row (refaced fl us cfg g row f)
    unfolding refaced
    refaced-IsConsistentBut = record {
      aligned = record {
        embs = c.aligned.embs;
        embs_i8 = c.aligned.embs_i8;
        flags_cache = c.aligned.flags_cache;
        image_faces = c.aligned.image_faces;
        members = c.aligned.members;
        hidden = c.aligned.hidden;
        tallied = c.aligned.tallied;
        centroids = c.aligned.centroids;
        rows_fit = c.aligned.rows_fit;
      };
      listed = λ id r h. ground (arith, c.membership.listed id r h);
      in_range = λ r h. ground (arith, c.membership.in_range r h);
      indexable = λ r h n. ground (arith, c.membership.indexable r h, n);
      counted = λ id h. record { size = (c.counted id h).size; live = (c.counted id h).live };
      mirrored = c.mirrored;
      faces = record {
        cached = λ r h. ground (arith, c.faces.cached r h);
        shown = λ i r h. ground (
          arith,
          c.faces.shown i r h,
          live-regated (g.faces.at row).flags (passes_gate fl cfg f.box f.det_score),
        );
        on_image = λ r h. ground (arith, c.faces.on_image r h);
        indexed = λ r. ground (
          arith,
          c.faces.indexed r,
          contains-add fl us g.hnsw row f.embedding r,
          contains-update fl us g.hnsw row f.embedding r,
          contains-remove fl us g.hnsw row r,
        );
      };
    }

    -- Remapping a row keeps the gallery consistent: a face that fails the gate has left its identity.
    pub remap_face-IsConsistent : IsConsistent fl us (remap_face fl us cfg g row f now)
    unfolding remap_face
    remap_face-IsConsistent =
        let g' = refaced fl us cfg g row f in
        let there : row < g'.faces.size = unfold refaced in inside in
        elim (Bool-cases (face_indexable (g'.faces.at row).flags)) [
          | inl indexable ↦
              let settled = settle row g' refaced-IsConsistentBut (inr indexable) in
              elim (Bool-cases ((g'.faces.at row).identity_ref == 0)) [
                | inl free ↦
                    rw (indexable, free)
                      (try_join_identity-IsConsistent fl us cfg g' row now settled there indexable)
                | inr held ↦ rw (indexable, held) settled
              ]
          | inr low ↦ rw low (unassign-IsConsistent fl us g' row now refaced-IsConsistentBut there)
        ]

  pub size_kept : {g g' : G fl us} → SameShelf fl us 0 g g' → g'.faces.size ≡ g.faces.size
  size_kept s = omega (arith, s.grown, s.bounded)

  module _ (cfg : Config fl.Float) (now : ℕ) where
    pub remap_face-SameShelf :
        (g : G fl us) (row : ℕ) (f : DetectedFace fl.Float)
        → SameShelf fl us 0 g (remap_face fl us cfg g row f now)
    unfolding remap_face
    remap_face-SameShelf g row f =
        let g' = refaced fl us cfg g row f in
        let p : SameShelf fl us 0 g g' =
          unfold refaced in
          record {
            grown = omega arith;
            bounded = omega arith;
            images = refl;
            sha_to_idx = refl;
            masters = refl;
          } in
        elim (Bool-cases (face_indexable (g'.faces.at row).flags)) [
          | inl indexable ↦ elim (Bool-cases ((g'.faces.at row).identity_ref == 0)) [
            | inl free ↦
                rw (indexable, free)
                  (SameShelf-trans fl us 0 0 0 g g' _ (omega arith) p
                    (Kept-shelf fl us (try_join_identity-Kept fl us cfg g' row now)))
            | inr held ↦ rw (indexable, held) p
          ]
          | inr low ↦ rw low (
              SameShelf-trans fl us 0 0 0 g g' _ (omega arith) p
                (Kept-shelf fl us (unassign-Kept fl us g' row now)))
        ]

    match_rows-Follows :
        (m : Matching fl us) (p : Pair fl us) (f : Option (DetectedFace fl.Float)) (row : Option ℕ)
        → IsConsistent fl us m.gallery
        → ((r : ℕ) → row ≡ some r → r < m.gallery.faces.size)
        → Follows fl us 0 m.gallery (match_rows fl us cfg m p f row now).gallery
    unfolding match_rows
    match_rows-Follows m p none row c h = (c, SameShelf-refl fl us 0 m.gallery)
    match_rows-Follows m p (some f) none c h = (c, SameShelf-refl fl us 0 m.gallery)
    match_rows-Follows m p (some f) (some row) c h = (
      remap_face-IsConsistent cfg m.gallery row f now c (h row refl),
      remap_face-SameShelf m.gallery row f,
    )

    pub get_elem?-below :
        (n : ℕ) (rows : List ℕ) (i r : ℕ)
        → All (λ k. k < n) rows
        → get_elem? rows i ≡ some r
        → r < n
    get_elem?-below n [] i r a e = cc
    get_elem?-below n (x ∷ rows) zero r a e = ground (arith, a.0)
    get_elem?-below n (x ∷ rows) (suc i) r a e = get_elem?-below n rows i r a.1 e

    match_step-Follows :
        (faces : List (DetectedFace fl.Float)) (rows : List ℕ) (p : Pair fl us) (m : Matching fl us)
        → IsConsistent fl us m.gallery
        → All (λ k. k < m.gallery.faces.size) rows
        → Follows fl us 0 m.gallery (match_step fl us cfg faces rows p now m).gallery
    unfolding match_step
    match_step-Follows faces rows p m c a = elim (Bool-cases (m.new_used p.ni || m.old_used p.oi)) [
      | inl used ↦ rw used (c, SameShelf-refl fl us 0 m.gallery)
      | inr free ↦ rw free (
          match_rows-Follows m p (get_elem? faces p.ni) (get_elem? rows p.oi) c
            (λ r e. get_elem?-below m.gallery.faces.size rows p.oi r a e))
    ]

    -- All the matched pairs.
    pub match_pairs-Follows :
        (faces : List (DetectedFace fl.Float)) (rows : List ℕ) (ps : List (Pair fl us))
        (m : Matching fl us)
        → IsConsistent fl us m.gallery
        → All (λ k. k < m.gallery.faces.size) rows
        → Follows fl us 0 m.gallery (match_pairs fl us cfg faces rows ps now m).gallery
    unfolding match_pairs
    match_pairs-Follows faces rows [] m c a = (c, SameShelf-refl fl us 0 m.gallery)
    match_pairs-Follows faces rows (p ∷ ps) m c a =
        let next = match_step fl us cfg faces rows p now m in
        let step = match_step-Follows faces rows p m c a in
        Follows-trans fl us 0 0 0 m.gallery next.gallery
          (match_pairs fl us cfg faces rows ps now next).gallery (omega arith) step
          (match_pairs-Follows faces rows ps next step.0
            (subst (λ n. All (λ k. k < n) rows) (sym (size_kept step.1)) a))

    recompute_identity-Follows :
        (g : G fl us) (id : ℕ)
        → IsConsistent fl us g
        → Follows fl us 0 g (recompute_identity fl us g id now)
    recompute_identity-Follows g id c = (
      recompute-IsConsistent fl us g id now c.aligned c.membership (λ j h _. c.counted j h)
          c.mirrored c.faces,
      Kept-shelf fl us (recompute-Kept fl us g id now),
    )

    pub recompute_all-Follows :
        (g : G fl us) (ids : List ℕ)
        → IsConsistent fl us g
        → Follows fl us 0 g (recompute_all fl us g ids now)
    unfolding recompute_all
    recompute_all-Follows g [] c = (c, SameShelf-refl fl us 0 g)
    recompute_all-Follows g (id ∷ ids) c =
        let next = recompute_identity fl us g id now in
        let step = recompute_identity-Follows g id c in
        Follows-trans fl us 0 0 0 g next (recompute_all fl us next ids now) (omega arith) step
          (recompute_all-Follows next ids step.0)

-- ===== src/Gallery/Labels/Sound.antt =====
-- apply_labels_locked of src/store/identity.cpp keeps a gallery sound, whose labels go to indexable faces.
use hvax.Prelude.{
  ℕ, zero, suc, ◌-◌, ◌≤◌, ◌<◌, ◌≡◌, refl, sym, ap, subst, ◌∙◌, true, not, ◌&&◌, ltb, if◌then◌else◌,
  min, Table, ℤ, pos, arith, Bool-cases, inl, inr,
}
use native.Mathlib.Decide.{ℕ_discrete}
use hvax.Floats.{Floats}
use hvax.Hnsw.{Usearch}
use hvax.Types.{FaceSlot, slot_live, face_indexable}
use hvax.Gallery.Invariant.{
  G, nonempty, IsAligned, HasMembers, IsCounted, IsMirrored, HasFaces, IsConsistent, SameImages,
  three_steps,
}
use hvax.Gallery.Identities.{recompute_identity}
use hvax.Gallery.Identities.Recompute.{
  size-recompute, faces-recompute, recompute-SameImages, recompute-IsCounted_self,
  recompute-IsCounted_ne, recompute-IsMirrored, recompute-IsAligned, recompute-HasMembers,
  recompute-HasFaces,
}
use hvax.Gallery.Identities.Loose.{
  DeadEmpty, IsLoose, IsConsistent-IsLoose, IsCounted-dead, dead-IsCounted, recompute-identity_ne,
}
use hvax.Gallery.Shelf.{remark-IsShelved}
use hvax.Gallery.Images.Keep.{IsSound}
use hvax.Gallery.Labels.Repeats.{mark_below-IsMarked}
use hvax.Gallery.Labels.{
  mark_below, mark_repeat_images, label_ref, room_for, new_identities, relabelled, recompute_below,
  apply_labels,
}
use hvax.Gallery.Labels.Keep.{
  Labels, Grown, new_identities-Grown, relabelled-IsLoose, relabelled-HasMembers, relabelled-same,
  ref-relabelled,
}

module _ (fl : Floats) (us : Usearch fl.Float) where
  -- The statistics of the identities below `k` are made, the lists and all else stay.
  record Counted (g : G fl us) (k : ℕ) (g' : G fl us) : Type 0 where
    aligned : IsAligned fl us g'
    membership : HasMembers fl us g'
    mirrored : IsMirrored fl us g'
    faces : HasFaces fl us g'
    dead : DeadEmpty fl us g'
    below : (id : ℕ) → id < k → id < g.identities.size → IsCounted fl us g' id
    identities : g'.identities.size ≡ g.identities.size
    rows : g'.faces ≡ g.faces
    same : SameImages fl us g g'

  skipped :
      (g : G fl us) (k : ℕ) (b : G fl us)
      → Counted g k b
      → k < g.identities.size
      → (not (nonempty (b.members.at k)) && not (slot_live (b.identities.at k).flags)) ≡ true
      → Counted g (suc k) b
  skipped g k b c h e = record {
    aligned = c.aligned;
    membership = c.membership;
    mirrored = c.mirrored;
    faces = c.faces;
    dead = c.dead;
    below = λ id lt inside. elim (ℕ_discrete id k) [
      | yes same ↦ subst (IsCounted fl us b) (sym same) (
          dead-IsCounted fl us b k (c.dead k (omega (arith, h, c.identities)) (ground (arith, e)))
            e)
      | no other ↦ c.below id (omega (arith, lt, other)) inside
    ];
    identities = c.identities;
    rows = c.rows;
    same = c.same;
  }

  remade :
      (g : G fl us) (k now : ℕ) (b : G fl us)
      → Counted g k b
      → k < g.identities.size
      → Counted g (suc k) (recompute_identity fl us b k now)
  remade g k now b c h =
      let inside : k < b.identities.size = omega (arith, h, c.identities) in
      let self = recompute-IsCounted_self fl us b k now inside in
      record {
        aligned = recompute-IsAligned fl us b k now c.aligned;
        membership = recompute-HasMembers fl us b k now c.membership;
        mirrored = recompute-IsMirrored fl us b k now c.mirrored;
        faces = recompute-HasFaces fl us b k now c.faces;
        dead = λ id i e. elim (ℕ_discrete id k) [
          | yes same ↦
              IsCounted-dead fl us (recompute_identity fl us b k now) id
                (subst (IsCounted fl us (recompute_identity fl us b k now)) (sym same) self) e
          | no other ↦
              let stays = recompute-identity_ne fl us b k now id other in
              ap (λ s. s.size) stays
              ∙ c.dead id (omega (arith, i, size-recompute fl us b k now))
                  (ap (λ s. slot_live s.flags) (sym stays) ∙ e)
        ];
        below = λ id lt i. elim (ℕ_discrete id k) [
          | yes same ↦ subst (IsCounted fl us (recompute_identity fl us b k now)) (sym same) self
          | no other ↦
              recompute-IsCounted_ne fl us b k now id other
                (c.below id (omega (arith, lt, other)) i)
        ];
        identities = size-recompute fl us b k now ∙ c.identities;
        rows = faces-recompute fl us b k now ∙ c.rows;
        same = three_steps c.same (recompute-SameImages fl us b k now);
      }

  recompute_below-Counted :
      (g : G fl us) (k now : ℕ)
      → k ≤ g.identities.size
      → IsLoose fl us g
      → HasMembers fl us g
      → Counted g k (recompute_below fl us g k now)
  unfolding recompute_below
  recompute_below-Counted g zero now h l m = record {
    aligned = l.aligned;
    membership = m;
    mirrored = l.mirrored;
    faces = l.faces;
    dead = l.dead;
    below = λ id k b. ground (arith, k);
    identities = refl;
    rows = refl;
    same = (refl, refl, refl);
  }
  recompute_below-Counted g (suc k) now h l m =
      let b = recompute_below fl us g k now in
      let c = recompute_below-Counted g k now (omega (arith, h)) l m in
      elim (Bool-cases
        (not (nonempty (b.members.at k)) && not (slot_live (b.identities.at k).flags))) [
          | inl gone ↦ rw gone (skipped g k b c (omega (arith, h)) gone)
          | inr there ↦ rw there (remade g k now b c (omega (arith, h)))
        ]

  -- Marking changes nothing that the invariant of faces speaks of.
  mark-IsConsistent :
      (g : G fl us) → IsConsistent fl us g → IsConsistent fl us (mark_repeat_images fl us g)
  unfolding mark_repeat_images
  mark-IsConsistent g c =
      let size = (mark_below-IsMarked g.faces g.image_faces g.images g.images.size 0).size in
      record {
        aligned = record {
          embs = c.aligned.embs;
          embs_i8 = c.aligned.embs_i8;
          flags_cache = c.aligned.flags_cache;
          image_faces = c.aligned.image_faces ∙ sym size;
          members = c.aligned.members;
          hidden = c.aligned.hidden;
          tallied = c.aligned.tallied;
          centroids = c.aligned.centroids;
          rows_fit = c.aligned.rows_fit;
        };
        membership = record {
          listed = c.membership.listed;
          in_range = c.membership.in_range;
          indexable = c.membership.indexable;
        };
        counted = λ id h. record { size = (c.counted id h).size; live = (c.counted id h).live };
        mirrored = c.mirrored;
        faces = record {
          cached = c.faces.cached;
          shown = λ i r h. c.faces.shown i r (omega (arith, h, size));
          on_image = λ r h. let p = c.faces.on_image r h in (p.0, omega (arith, p.1, size));
          indexed = c.faces.indexed;
        };
      }

  mark-IsSound : (g : G fl us) → IsSound fl us g → IsSound fl us (mark_repeat_images fl us g)
  mark-IsSound g s = record {
    consistent = mark-IsConsistent g s.consistent;
    shelved =
        unfold mark_repeat_images in
        (remark-IsShelved g.images (mark_below g.faces g.image_faces g.images g.images.size)
          g.sha_to_idx g.masters s.shelved
          (mark_below-IsMarked g.faces g.image_faces g.images g.images.size 0).size
          (λ i. (mark_below-IsMarked g.faces g.image_faces g.images g.images.size i).image_id)
          (λ i. (mark_below-IsMarked g.faces g.image_faces g.images g.images.size i).sha256)
          (λ i. (mark_below-IsMarked g.faces g.image_faces g.images g.images.size i).live));
  }

  module _ (g : G fl us) (labels : Table ℤ) (n now : ℕ) (s : IsSound fl us g)
      (v : Labels fl us g labels n) where
    abbrev g₁ : G fl us
    g₁ = new_identities fl us g (room_for labels n - g.identities.size) now

    abbrev g₂ : G fl us
    g₂ = relabelled fl us g₁ labels n

    abbrev g₃ : G fl us
    g₃ = recompute_below fl us g₂ g₂.identities.size now

    grown : Grown fl us g (room_for labels n - g.identities.size) g₁
    grown =
        new_identities-Grown fl us g (room_for labels n - g.identities.size) now
          (IsConsistent-IsLoose fl us g s.consistent)

    room : room_for labels n ≤ g₁.identities.size
    room = omega (arith, grown.identities)

    labels₁ : Labels fl us g₁ labels n
    labels₁ =
        subst
          (λ (f : Table (FaceSlot fl.Float)).
            (r l : ℕ)
            → r < n
            → labels.at r ≡ pos l
            → slot_live (f.at r).flags ≡ true
            → face_indexable (f.at r).flags ≡ true)
          (sym grown.faces) v

    counted : Counted g₂ g₂.identities.size g₃
    counted =
        recompute_below-Counted g₂ g₂.identities.size now (omega arith)
          (relabelled-IsLoose fl us g₁ labels n grown.loose room labels₁)
          (relabelled-HasMembers fl us g₁ labels n grown.loose room labels₁)

    unchanged : SameImages fl us g g₃
    unchanged =
        three_steps grown.same
          (three_steps (relabelled-same fl us g₁ labels n grown.loose room labels₁).1 counted.same)

    -- The reference that face `r` has when it has `ref` and the other table says what is live.
    abbrev Ref : ℕ → Table (FaceSlot fl.Float) → ℕ → Type 0
    Ref r faces ref = ref ≡ (
        if ltb r (min n faces.size) && slot_live (faces.at r).flags
        then label_ref (labels.at r)
        else (faces.at r).identity_ref)

    recounted-Ref : (r : ℕ) → Ref r g.faces (g₃.faces.at r).identity_ref
    recounted-Ref r =
        subst (λ faces. Ref r faces (g₃.faces.at r).identity_ref) grown.faces
          (subst (λ (faces : Table (FaceSlot fl.Float)). Ref r g₁.faces (faces.at r).identity_ref)
            (sym counted.rows) (ref-relabelled fl us g₁ labels n grown.loose room labels₁ r).ref)

    recounted-IsSound : IsSound fl us g₃
    recounted-IsSound = record {
      consistent = record {
        aligned = counted.aligned;
        membership = counted.membership;
        counted = λ id h.
            let inside : id < g₂.identities.size = omega (arith, h, counted.identities) in
            counted.below id inside inside;
        mirrored = counted.mirrored;
        faces = counted.faces;
      };
      shelved = rw (unchanged.0, unchanged.1, unchanged.2) s.shelved;
    }

    pub apply_labels_lem :
        (r : ℕ)
        → let g' = apply_labels fl us g labels n now in
          IsSound fl us g'
          × ((g'.faces.at r).identity_ref ≡ (
              if ltb r (min n g.faces.size) && slot_live (g.faces.at r).flags
              then label_ref (labels.at r)
              else (g.faces.at r).identity_ref))
    unfolding apply_labels mark_repeat_images
    apply_labels_lem r = (mark-IsSound g₃ recounted-IsSound, recounted-Ref r)

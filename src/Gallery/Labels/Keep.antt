-- ===== src/Gallery/Labels/Keep.antt =====
-- apply_labels_locked of src/store/identity.cpp keeps a gallery sound.
use hvax.Prelude.{
  ℕ, zero, suc, ◌+◌, ◌≤◌, ◌<◌, ◌≡◌, refl, sym, ap, subst, ◌∙◌, Bool, true, false, ◌&&◌, ◌⊎◌, [],
  ltb, ◌==◌, if◌then◌else◌, min, Table, filled, ℤ, pos, negsuc, count, arith, Bool-cases, inl, inr,
}
use hvax.Floats.{Floats}
use hvax.Hnsw.{Usearch}
use hvax.Types.{FaceSlot, slot_live, face_indexable}
use hvax.Gallery.Invariant.{G, tally, shows, HasMembers, SameImages, three_steps}
use hvax.Gallery.Identities.Create.{size-new_identity, faces-new_identity, new_identity-SameImages}
use hvax.Gallery.Identities.Loose.{IsLoose, new_identity-IsLoose}
use hvax.Gallery.Labels.{
  label_ref, room_for, relabel_below, relist_below, new_identities, relabelled,
}
use hvax.Gallery.Labels.Lists.{
  IsRelabelled, relabel_below-IsRelabelled, label_ref-room_for, relist_below_lem,
}

-- Cells below the size of the mirror are read as they are.
tally_inside :
    (f : ℕ → Bool) (m n : ℕ) → n ≤ m → tally (λ id. if ltb id m then f id else false) n ≡ tally f n
tally_inside f m zero h = refl
tally_inside f m (suc n) h = ground (arith, tally_inside f m n, h)

module _ (fl : Floats) (us : Usearch fl.Float) where
  -- Of the faces below `n`, those with a label are indexable, if they are live.
  abbrev pub Labels : G fl us → Table ℤ → ℕ → Type 0
  Labels g labels n =
      (r l : ℕ)
      → r < n
      → labels.at r ≡ pos l
      → slot_live (g.faces.at r).flags ≡ true
      → face_indexable (g.faces.at r).flags ≡ true

  pub record Grown (g : G fl us) (k : ℕ) (g' : G fl us) : Type 0 where
    pub loose : IsLoose fl us g'
    pub identities : g'.identities.size ≡ g.identities.size + k
    pub faces : g'.faces ≡ g.faces
    pub same : SameImages fl us g g'

  pub new_identities-Grown :
      (g : G fl us) (k now : ℕ) → IsLoose fl us g → Grown g k (new_identities fl us g k now)
  unfolding new_identities
  new_identities-Grown g zero now l = record {
    loose = l;
    identities = omega arith;
    faces = refl;
    same = (refl, refl, refl);
  }
  new_identities-Grown g (suc k) now l =
      let b = new_identities-Grown g k now l in
      let g₁ = new_identities fl us g k now in
      record {
        loose = new_identity-IsLoose fl us g₁ now b.loose;
        identities = omega (arith, b.identities, size-new_identity fl us g₁ now);
        faces = faces-new_identity fl us g₁ now ∙ b.faces;
        same = three_steps b.same (new_identity-SameImages fl us g₁ now);
      }

  module _ (g : G fl us) (labels : Table ℤ) (n : ℕ) (l : IsLoose fl us g)
      (room : room_for labels n ≤ g.identities.size) (v : Labels g labels n) where
    abbrev faces' : Table (FaceSlot fl.Float)
    faces' = relabel_below g.faces labels (min n g.faces.size)

    spot : (r : ℕ) → IsRelabelled g.faces labels (min n g.faces.size) r faces'
    spot r = relabel_below-IsRelabelled g.faces labels (min n g.faces.size) r

    ref-in_range : (r : ℕ) → r < g.faces.size → (faces'.at r).identity_ref ≤ g.identities.size
    ref-in_range r h =
        ground (arith, (spot r).ref, label_ref-room_for labels n r, l.in_range r h, room, h)

    label_lem :
        (r : ℕ)
        → (ltb r (min n g.faces.size) && slot_live (g.faces.at r).flags) ≡ true
        → (z : ℤ) → labels.at r ≡ z
        → (faces'.at r).identity_ref ≡ label_ref z
        → ((faces'.at r).identity_ref ≡ 0) ⊎ (face_indexable (faces'.at r).flags ≡ true)
    unfolding label_ref
    label_lem r given (negsuc k) e f = inl f
    label_lem r given (pos k) e f =
        inr (
          ap face_indexable (spot r).flags
          ∙ v r k (ground (arith, given)) e (ground (arith, given)))

    ref-indexable :
        (r : ℕ)
        → r < g.faces.size
        → ((faces'.at r).identity_ref ≡ 0) ⊎ (face_indexable (faces'.at r).flags ≡ true)
    ref-indexable r h =
        elim (Bool-cases (ltb r (min n g.faces.size) && slot_live (g.faces.at r).flags)) [
          | inl given ↦ label_lem r given (labels.at r) refl ((spot r).ref ∙ rw given refl)
          | inr kept ↦ kept_lem ((spot r).ref ∙ rw kept refl) (l.indexable r h)
        ]
      where
        kept_lem :
            (faces'.at r).identity_ref ≡ (g.faces.at r).identity_ref
            → ((g.faces.at r).identity_ref ≡ 0) ⊎ (face_indexable (g.faces.at r).flags ≡ true)
            → ((faces'.at r).identity_ref ≡ 0) ⊎ (face_indexable (faces'.at r).flags ≡ true)
        kept_lem e (inl none_) = inl (e ∙ none_)
        kept_lem e (inr ok) = inr (ap face_indexable (spot r).flags ∙ ok)

    shows_lem :
        (i r : ℕ)
        → (ltb r faces'.size && ((faces'.at r).image_id == suc i && slot_live (faces'.at r).flags))
          ≡ shows fl us g i r
    shows_lem i r = rw ((spot 0).size, (spot r).image_id, (spot r).flags) refl

    held_lem :
        (r : ℕ)
        → (ltb r faces'.size && face_indexable (faces'.at r).flags)
          ≡ (ltb r g.faces.size && face_indexable (g.faces.at r).flags)
    held_lem r = rw ((spot 0).size, (spot r).flags) refl

    abbrev total : ℕ
    total = min g.embs.size faces'.size

    lists_lem :
        (id r : ℕ)
        → (count r
              ((relist_below faces' g.identities.size total (filled g.identities.size [])).at id)
            ≡ (if ltb r total
                  && ((faces'.at r).identity_ref == suc id
                      && (face_indexable (faces'.at r).flags && ltb id g.identities.size))
                then 1
                else 0))
          × ((relist_below faces' g.identities.size total (filled g.identities.size [])).size
              ≡ g.identities.size)
    lists_lem id r =
        let made =
          relist_below_lem faces' g.identities.size total (filled g.identities.size []) id r
            (omega (arith, l.aligned.rows_fit, (spot 0).size)) in
        (ground (arith, made.0), made.1)

    pub relabelled-IsLoose : IsLoose fl us (relabelled fl us g labels n)
    unfolding relabelled
    relabelled-IsLoose = record {
      aligned = record {
        embs = l.aligned.embs ∙ sym (spot 0).size;
        embs_i8 = l.aligned.embs_i8 ∙ sym (spot 0).size;
        flags_cache = l.aligned.flags_cache ∙ sym (spot 0).size;
        image_faces = l.aligned.image_faces;
        members = (lists_lem 0 0).1;
        hidden = refl;
        tallied =
            l.aligned.tallied
            ∙ ap (tally g.hidden.at) l.aligned.hidden
            ∙ sym (
                tally_inside g.hidden.at g.hidden.size g.identities.size
                  (omega (arith, l.aligned.hidden)));
        centroids = l.aligned.centroids;
        rows_fit = omega (arith, (spot 0).size, l.aligned.rows_fit);
      };
      in_range = λ r h. ref-in_range r (omega (arith, h, (spot 0).size));
      indexable = λ r h. ref-indexable r (omega (arith, h, (spot 0).size));
      mirrored = λ id h. ground (arith, l.mirrored id h, l.aligned.hidden, h);
      faces = record {
        cached = λ r h. l.faces.cached r (omega (arith, h, (spot 0).size)) ∙ sym (spot r).flags;
        shown = λ i r h. l.faces.shown i r h ∙ ap (λ b. if b then 1 else 0) (sym (shows_lem i r));
        on_image = λ r h.
            subst (λ img. (0 < img) × (img ≤ g.images.size)) (sym (spot r).image_id)
              (l.faces.on_image r (omega (arith, h, (spot 0).size)));
        indexed = λ r. l.faces.indexed r ∙ sym (held_lem r);
      };
      dead = l.dead;
    }

    pub relabelled-HasMembers : HasMembers fl us (relabelled fl us g labels n)
    unfolding relabelled
    relabelled-HasMembers = record {
      listed = λ id r h.
          ground (arith, lists_lem id r, h, ref-indexable r, l.aligned.embs, (spot 0).size);
      in_range = λ r h. ref-in_range r (omega (arith, h, (spot 0).size));
      indexable = λ r h. ref-indexable r (omega (arith, h, (spot 0).size));
    }

    pub relabelled-same :
        ((relabelled fl us g labels n).identities ≡ g.identities)
        × SameImages fl us g (relabelled fl us g labels n)
    unfolding relabelled
    relabelled-same = (refl, (refl, refl, refl))

    pub ref-relabelled :
        (r : ℕ)
        → IsRelabelled g.faces labels (min n g.faces.size) r (relabelled fl us g labels n).faces
    unfolding relabelled
    ref-relabelled r = spot r

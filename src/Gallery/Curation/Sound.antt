-- ===== src/Gallery/Curation/Sound.antt =====
-- Hiding and curation (src/store/identity.cpp) leave the images alone, so that they keep a gallery
-- sound.
use hvax.Prelude.{
  ℕ, suc, ◌<◌, ◌^◌, refl, Bool, ◌&&◌, Option, none, some, List, [], ◌∷◌, ltb, leb, ℤ, pos, negsuc,
  sort, unique, length, put, ◌++◌, Bool-cases, inl, inr,
}
use hvax.Floats.{Floats}
use hvax.Hnsw.{Usearch}
use hvax.Types.{face_indexable}
use hvax.Gallery.Invariant.{G, IsConsistent, SameImages, three_steps}
use hvax.Gallery.Identities.{recompute_identity, identity_live, new_identity, assign}
use hvax.Gallery.Identities.Recompute.{recompute-SameImages}
use hvax.Gallery.Identities.Create.{new_identity-SameImages}
use hvax.Gallery.Identities.Assign.{Kept, assign-Kept, unassign-Kept}
use hvax.Gallery.Images.Keep.{IsSound}
use hvax.Gallery.Curation.{
  live_identity, set_refs, without, pin, unpin, hide_at, hide_row, set_identity_hidden, absorb,
  absorb_all, live_rows, merge_rows, merge_found, merge_identities, moving_rows, split_off,
  split_rows, split_found, split_at, split_identity, rename_row, rename_at, rename_identity,
  dissolve_row, dissolve_at, dissolve_identity, assign_row, assign_face,
}
use hvax.Gallery.Curation.Slots.{
  set_identity_hidden-IsConsistent, rename_identity-IsConsistent, assign_face-IsConsistent,
}
use hvax.Gallery.Curation.Groups.{dissolve_identity-IsConsistent}
use hvax.Gallery.Curation.Merge.{merge_identities-IsConsistent}
use hvax.Gallery.Curation.Split.{split_identity-IsConsistent}

module _ (fl : Floats) (us : Usearch fl.Float) where
  abbrev Same : G fl us → G fl us → Type 0
  Same g g' = SameImages fl us g g'

  sound : {g g' : G fl us} → IsSound fl us g → IsConsistent fl us g' → Same g g' → IsSound fl us g'
  sound s c e = record { consistent = c; shelved = rw (e.0, e.1, e.2) s.shelved }

  Kept-Same : {g g' : G fl us} → Kept fl us g g' → Same g g'
  Kept-Same k = (k.images, k.sha_to_idx, k.masters)

  pin-Same : (g : G fl us) (id : ℕ) → Same g (pin fl us g id)
  unfolding pin
  pin-Same g id = (refl, refl, refl)

  unpin-Same : (g : G fl us) (id : ℕ) → Same g (unpin fl us g id)
  unfolding unpin
  unpin-Same g id = (refl, refl, refl)

  hide_at-Same :
      (g : G fl us) (o : Option ℕ) (b : Bool) (now : ℕ) → Same g (hide_at fl us g o b now).1
  unfolding hide_at hide_row
  hide_at-Same g none b now = (refl, refl, refl)
  hide_at-Same g (some id) b now = (refl, refl, refl)

  rename_at-Same :
      (g : G fl us) (o : Option ℕ) (name : List ℕ) (now : ℕ)
      → Same g (rename_at fl us g o name now).1
  unfolding rename_at rename_row
  rename_at-Same g none name now = (refl, refl, refl)
  rename_at-Same g (some id) name now = (refl, refl, refl)

  dissolve_at-Same : (g : G fl us) (o : Option ℕ) (now : ℕ) → Same g (dissolve_at fl us g o now).1
  unfolding dissolve_at dissolve_row
  dissolve_at-Same g none now = (refl, refl, refl)
  dissolve_at-Same g (some id) now =
      let g₁ : G fl us = record g {
        faces = set_refs fl us g.faces (g.members.at id) 0;
        members = put g.members id [];
      } in
      three_steps (recompute-SameImages fl us g₁ id now)
        (unpin-Same (recompute_identity fl us g₁ id now) id)

  absorb_all-Same :
      (g : G fl us) (target : ℕ) (srcs : List ℕ) (now : ℕ)
      → Same g (absorb_all fl us g target srcs now)
  unfolding absorb_all absorb
  absorb_all-Same g target [] now = (refl, refl, refl)
  absorb_all-Same g target (src ∷ srcs) now =
      let g₁ : G fl us = record g {
        faces = set_refs fl us g.faces (g.members.at src) (suc target);
        members = put (put g.members target (g.members.at target ++ g.members.at src)) src [];
      } in
      three_steps (recompute-SameImages fl us g₁ src now)
        (absorb_all-Same (absorb fl us g target src now) target srcs now)

  merge_rows-Same : (g : G fl us) (ids : List ℕ) (now : ℕ) → Same g (merge_rows fl us g ids now).1
  unfolding merge_rows
  merge_rows-Same g [] now = (refl, refl, refl)
  merge_rows-Same g (target ∷ []) now = (refl, refl, refl)
  merge_rows-Same g (target ∷ src ∷ srcs) now =
      let g₁ = absorb_all fl us g target (src ∷ srcs) now in
      three_steps (absorb_all-Same g target (src ∷ srcs) now) (
        three_steps (recompute-SameImages fl us g₁ target now)
          (pin-Same (recompute_identity fl us g₁ target now) target))

  merge_found-Same :
      (g : G fl us) (o : Option (List ℕ)) (now : ℕ) → Same g (merge_found fl us g o now).1
  unfolding merge_found
  merge_found-Same g none now = (refl, refl, refl)
  merge_found-Same g (some rows) now = merge_rows-Same g (unique (sort rows)) now

  split_off-Same :
      (g : G fl us) (id : ℕ) (moving : List ℕ) (now : ℕ) → Same g (split_off fl us g id moving now)
  unfolding split_off
  split_off-Same g id moving now =
      let nid = g.identities.size in
      let g₁ = new_identity fl us g now in
      let g₂ : G fl us = record g₁ {
        faces = set_refs fl us g₁.faces moving (suc nid);
        members =
            put (put g₁.members nid (g₁.members.at nid ++ moving)) id
              (without moving (g₁.members.at id));
      } in
      let g₃ = recompute_identity fl us g₂ id now in
      let g₄ = recompute_identity fl us g₃ nid now in
      three_steps (new_identity-SameImages fl us g now) (
        three_steps (recompute-SameImages fl us g₂ id now) (
          three_steps (recompute-SameImages fl us g₃ nid now)
            (three_steps (pin-Same g₄ id) (pin-Same (pin fl us g₄ id) nid))))

  split_found-Same :
      (g : G fl us) (id : ℕ) (o : Option (List ℕ)) (now : ℕ)
      → Same g (split_found fl us g id o now).1
  unfolding split_found split_rows
  split_found-Same g id none now = (refl, refl, refl)
  split_found-Same g id (some rows) now =
      elim (Bool-cases (leb (length (g.members.at id)) (length (unique (sort rows))))) [
        | inl all ↦ rw all (refl, refl, refl)
        | inr part ↦ rw part (split_off-Same g id (unique (sort rows)) now)
      ]

  split_at-Same :
      (g : G fl us) (o : Option ℕ) (fs : List ℤ) (now : ℕ) → Same g (split_at fl us g o fs now).1
  unfolding split_at
  split_at-Same g none fs now = (refl, refl, refl)
  split_at-Same g (some id) [] now = (refl, refl, refl)
  split_at-Same g (some id) (f ∷ fs) now =
      split_found-Same g id (moving_rows fl us g id (f ∷ fs)) now

  assign_row-Same :
      (g : G fl us) (row : ℕ) (id : ℤ) (now : ℕ) → Same g (assign_row fl us g row id now).1
  unfolding assign_row
  assign_row-Same g row (negsuc n) now = Kept-Same (unassign-Kept fl us g row now)
  assign_row-Same g row (pos id) now = elim (Bool-cases (identity_live fl us g (pos id))) [
    | inl live ↦ rw live (
        three_steps (Kept-Same (assign-Kept fl us g row id now))
          (pin-Same (assign fl us g row id now) id))
    | inr dead ↦ rw dead (refl, refl, refl)
  ]

  assign_face-Same :
      (g : G fl us) (face_id id : ℤ) (now : ℕ) → Same g (assign_face fl us g face_id id now).1
  unfolding assign_face
  assign_face-Same g (negsuc n) id now = (refl, refl, refl)
  assign_face-Same g (pos row) id now =
      elim (Bool-cases (ltb row g.faces.size && face_indexable (g.faces.at row).flags)) [
        | inl there ↦ rw there (assign_row-Same g row id now)
        | inr other ↦ rw other (refl, refl, refl)
      ]

  module _ (g : G fl us) (now : ℕ) (s : IsSound fl us g) where
    -- Hiding and showing.
    pub set_identity_hidden-IsSound :
        (identity_id : ℤ) (hidden : Bool)
        → g.identities.size < 2 ^ 64
        → IsSound fl us (set_identity_hidden fl us g identity_id hidden now).1
    set_identity_hidden-IsSound identity_id hidden small =
        sound s (set_identity_hidden-IsConsistent fl us g identity_id hidden now s.consistent small)
          (unfold set_identity_hidden in
            hide_at-Same g (live_identity fl us g identity_id) hidden now)

    pub rename_identity-IsSound :
        (identity_id : ℤ) (name : List ℕ)
        → IsSound fl us (rename_identity fl us g identity_id name now).1
    rename_identity-IsSound identity_id name =
        sound s (rename_identity-IsConsistent fl us g identity_id name now s.consistent)
          (unfold rename_identity in rename_at-Same g (live_identity fl us g identity_id) name now)

    pub dissolve_identity-IsSound :
        (identity_id : ℤ) → IsSound fl us (dissolve_identity fl us g identity_id now).1
    dissolve_identity-IsSound identity_id =
        sound s (dissolve_identity-IsConsistent fl us g identity_id now s.consistent)
          (unfold dissolve_identity in dissolve_at-Same g (live_identity fl us g identity_id) now)

    pub merge_identities-IsSound :
        (ids : List ℤ) → IsSound fl us (merge_identities fl us g ids now).1
    merge_identities-IsSound ids =
        sound s (merge_identities-IsConsistent fl us g ids now s.consistent)
          (unfold merge_identities in merge_found-Same g (live_rows fl us g ids) now)

    pub split_identity-IsSound :
        (identity_id : ℤ) (face_ids : List ℤ)
        → IsSound fl us (split_identity fl us g identity_id face_ids now).1
    split_identity-IsSound identity_id face_ids =
        sound s (split_identity-IsConsistent fl us g identity_id face_ids now s.consistent) (
          unfold split_identity in split_at-Same g (live_identity fl us g identity_id) face_ids now)

    pub assign_face-IsSound :
        (face_id identity_id : ℤ) → IsSound fl us (assign_face fl us g face_id identity_id now).1
    assign_face-IsSound face_id identity_id =
        sound s (assign_face-IsConsistent fl us g face_id identity_id now s.consistent)
          (assign_face-Same g face_id identity_id now)

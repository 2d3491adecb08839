-- ===== src/Gallery/Upgrade/Keep.antt =====
-- Gallery::upgrade (src/store/gallery.cpp) keeps a gallery sound.
use hvax.Prelude.{
  ℕ, suc, ap, ◌∙◌, ◌≢◌, ℤ, pos, ◌+◌, ◌≤◌, ◌<◌, ◌≡◌, ◌^◌, refl, sym, subst, Bool, true, false,
  Option, none, some, List, [], ◌∷◌, length, arith, All, put, sort, unique,
}
use hvax.Floats.{Floats}
use hvax.Hnsw.{Usearch}
use hvax.Types.{DetectedFace, ImageSlot, slot_live, u32}
use hvax.Gallery.State.{Config, Sha}
use hvax.Gallery.Invariant.{G, IsConsistent, Follows, Follows-trans, SameShelf-refl}
use hvax.Gallery.Faces.Keep.{append_face-Follows, tombstone_face-Follows}
use hvax.Gallery.Images.{Picture, set_sha, slot_at, live_row, find_by_sha}
use hvax.Gallery.Images.Keep.{slot_at-put, live_row_lem, IsSound, refile, reslot, rows_inside}
use hvax.Gallery.Shelf.{IsShelved, upgrade-IsShelved, reslot-IsShelved, set_sha_self, set_sha_ne}
use hvax.Gallery.Upgrade.{
  Matching, match_pairs, sort_pairs, all_pairs, append_unless, append_unmatched, tombstone_unless,
  tombstone_unmatched, recompute_all, upgrade_at, upgrade, mastered, new_master, rematched,
  upgrade_row,
}
use hvax.Gallery.Upgrade.Remap.{size_kept, match_pairs-Follows, recompute_all-Follows}

-- The id of a slot that was found.
abbrev pub found_id : Option ImageSlot → Option ℤ
found_id none = none
found_id (some x) = some (pos x.image_id)

module _ (fl : Floats) (us : Usearch fl.Float) where
  append_unless-Follows :
      (cfg : Config fl.Float) (used : Bool) (g : G fl us) (i : ℕ) (f : DetectedFace fl.Float)
      (now : ℕ)
      → IsConsistent fl us g
      → g.faces.size < 2 ^ 32
      → i < g.images.size
      → Follows fl us 1 g (append_unless fl us cfg used g (suc i) f now)
  unfolding append_unless
  append_unless-Follows cfg true g i f now c room image = (c, SameShelf-refl fl us 1 g)
  append_unless-Follows cfg false g i f now c room image =
      append_face-Follows fl us cfg g i f now c room image

  append_unmatched-Follows :
      (cfg : Config fl.Float) (used : ℕ → Bool) (g : G fl us) (i ni : ℕ)
      (fs : List (DetectedFace fl.Float)) (now : ℕ)
      → IsConsistent fl us g
      → g.faces.size + length fs ≤ 2 ^ 32
      → i < g.images.size
      → Follows fl us (length fs) g (append_unmatched fl us cfg used g (suc i) ni fs now)
  unfolding append_unmatched
  append_unmatched-Follows cfg used g i ni [] now c room image = (c, SameShelf-refl fl us 0 g)
  append_unmatched-Follows cfg used g i ni (f ∷ fs) now c room image =
      let next = append_unless fl us cfg (used ni) g (suc i) f now in
      let step = append_unless-Follows cfg (used ni) g i f now c (omega arith) image in
      Follows-trans fl us 1 (length fs) (suc (length fs)) g next _ (omega arith) step (
        append_unmatched-Follows cfg used next i (ni + 1) fs now step.0
          (omega (arith, step.1.bounded)) (rw step.1.images image))

  tombstone_unless-Follows :
      (used : Bool) (g : G fl us) (r now : ℕ)
      → IsConsistent fl us g
      → r < g.faces.size
      → Follows fl us 0 g (tombstone_unless fl us used g r now)
  unfolding tombstone_unless
  tombstone_unless-Follows true g r now c inside = (c, SameShelf-refl fl us 0 g)
  tombstone_unless-Follows false g r now c inside = tombstone_face-Follows fl us g r now c inside

  tombstone_unmatched-Follows :
      (used : ℕ → Bool) (g : G fl us) (oi : ℕ) (rows : List ℕ) (now : ℕ)
      → IsConsistent fl us g
      → All (λ k. k < g.faces.size) rows
      → Follows fl us 0 g (tombstone_unmatched fl us used g oi rows now)
  unfolding tombstone_unmatched
  tombstone_unmatched-Follows used g oi [] now c a = (c, SameShelf-refl fl us 0 g)
  tombstone_unmatched-Follows used g oi (r ∷ rows) now c a =
      let next = tombstone_unless fl us (used oi) g r now in
      let step = tombstone_unless-Follows (used oi) g r now c a.0 in
      Follows-trans fl us 0 0 0 g next _ (omega arith) step (
        tombstone_unmatched-Follows used next (oi + 1) rows now step.0
          (subst (λ n. All (λ k. k < n) rows) (sym (size_kept fl us step.1)) a.1))

  All-grown : (m n : ℕ) (rows : List ℕ) → m ≤ n → All (λ k. k < m) rows → All (λ k. k < n) rows
  All-grown m n [] le a = tt
  All-grown m n (r ∷ rows) le a = (omega (arith, a.0), All-grown m n rows le a.1)

  rematched-Follows :
      (cfg : Config fl.Float) (g : G fl us) (i : ℕ) (fs : List (DetectedFace fl.Float)) (now : ℕ)
      → IsConsistent fl us g
      → g.faces.size + length fs ≤ 2 ^ 32
      → i < g.images.size
      → All (λ k. k < g.faces.size) (g.image_faces.at i)
      → Follows fl us (length fs) g (rematched fl us cfg g i fs now)
  unfolding rematched
  rematched-Follows cfg g i fs now c room image below =
      let rows = g.image_faces.at i in
      let n = length fs in
      let start : Matching fl us = record {
        gallery = g;
        new_used = λ _. false;
        old_used = λ _. false;
        touched = [];
      } in
      let m =
        match_pairs fl us cfg fs rows (sort_pairs fl us (all_pairs fl us g.embs 0 fs rows)) now
          start in
      let matched =
        match_pairs-Follows fl us cfg now fs rows
          (sort_pairs fl us (all_pairs fl us g.embs 0 fs rows)) start c below in
      let g₁ = append_unmatched fl us cfg m.new_used m.gallery (suc i) 0 fs now in
      let appended = Follows-trans fl us 0 n n g m.gallery g₁ (omega arith) matched (
        append_unmatched-Follows cfg m.new_used m.gallery i 0 fs now matched.0
          (omega (arith, matched.1.bounded)) (rw matched.1.images image)) in
      let g₂ = tombstone_unmatched fl us m.old_used g₁ 0 rows now in
      let emptied = Follows-trans fl us n 0 n g g₁ g₂ (omega arith) appended (
        tombstone_unmatched-Follows m.old_used g₁ 0 rows now appended.0
          (All-grown g.faces.size g₁.faces.size rows appended.1.grown below)) in
      Follows-trans fl us n 0 n g g₂ (recompute_all fl us g₂ (unique (sort m.touched)) now)
        (omega arith) emptied
        (recompute_all-Follows fl us cfg now g₂ (unique (sort m.touched)) emptied.0)

  module _ (cfg : Config fl.Float) (g : G fl us) (i : ℕ) (p : Picture)
      (fs : List (DetectedFace fl.Float)) (now : ℕ) (s : IsSound fl us g)
      (room : g.faces.size + length fs ≤ 2 ^ 32) (inside : i < g.images.size)
      (live : slot_live (g.images.at i).flags ≡ true) (fresh : g.sha_to_idx p.sha ≡ none) where
    new_master-IsConsistent : IsConsistent fl us (new_master fl us g i p now)
    unfolding new_master
    new_master-IsConsistent =
        let x = mastered fl us (g.images.at i) p now in
        refile fl us (record g { images = put g.images i x })
          (set_sha (set_sha g.sha_to_idx (g.images.at i).sha256 none) p.sha (some i))
          (set_sha g.masters p.sha (some p.bytes)) (reslot fl us g i x s.consistent)

    filled :
        Follows fl us
          (length fs)
          (new_master fl us g i p now)
          (rematched fl us cfg (new_master fl us g i p now) i fs now)
    filled =
        rematched-Follows cfg (new_master fl us g i p now) i fs now new_master-IsConsistent
          (unfold new_master in room) (unfold new_master in inside)
          (unfold new_master in rows_inside fl us g i s inside)

    -- Replacing the master of a live image by a picture with a new digest keeps the gallery sound.
    pub upgrade_row-IsSound : IsSound fl us (upgrade_row fl us cfg g i p fs now)
    unfolding upgrade_row
    upgrade_row-IsSound =
        let g₁ = rematched fl us cfg (new_master fl us g i p now) i fs now in
        let x : ImageSlot = record (g₁.images.at i) {
          nfaces = u32 (length (g₁.image_faces.at i));
        } in
        record {
          consistent =
              refile fl us (record g₁ { images = put g₁.images i x }) g₁.sha_to_idx
                (set_sha g₁.masters (g.images.at i).sha256 none) (reslot fl us g₁ i x filled.0);
          shelved =
              reslot-IsShelved g₁.images g₁.sha_to_idx
                (set_sha g₁.masters (g.images.at i).sha256 none) shelved i x refl refl refl;
        }
      where
        shelved :
            let g₁ = rematched fl us cfg (new_master fl us g i p now) i fs now in
            IsShelved g₁.images g₁.sha_to_idx (set_sha g₁.masters (g.images.at i).sha256 none)
        shelved =
            rw (filled.1.images, filled.1.sha_to_idx, filled.1.masters)
              (unfold new_master in
                unfold mastered in
                upgrade-IsShelved g.images g.sha_to_idx g.masters s.shelved i inside live
                  (mastered fl us (g.images.at i) p now) p.bytes fresh refl live)

    -- What the digests lead to after the upgrade of row `i`.
    find_by_sha-upgrade_row :
        let g' = upgrade_row fl us cfg g i p fs now in
        (find_by_sha fl us g' p.sha
          ≡ some (record (mastered fl us (g.images.at i) p now) {
            nfaces = u32 (length (g'.image_faces.at i));
          }))
        × (find_by_sha fl us g' (g.images.at i).sha256 ≡ none)
        × ((k : Sha)
            → k ≢ p.sha
            → k ≢ (g.images.at i).sha256
            → find_by_sha fl us g' k ≡ find_by_sha fl us g k)
    unfolding find_by_sha upgrade_row
    find_by_sha-upgrade_row =
        let im = g.images.at i in
        let g₁ = rematched fl us cfg (new_master fl us g i p now) i fs now in
        let images : g₁.images ≡ put g.images i (mastered fl us im p now) =
          filled.1.images ∙ unfold new_master in refl in
        let map : g₁.sha_to_idx ≡ set_sha (set_sha g.sha_to_idx im.sha256 none) p.sha (some i) =
          filled.1.sha_to_idx ∙ unfold new_master in refl in
        let known = s.shelved.known i inside live in
        (
          rw (images, map, set_sha_self (set_sha g.sha_to_idx im.sha256 none) p.sha (some i))
              (unfold slot_at in ground arith),
          rw
              (
                map,
                set_sha_ne (set_sha g.sha_to_idx im.sha256 none) p.sha im.sha256 (some i)
                    (λ e. ground (arith, fresh, known, ap g.sha_to_idx e)),
                set_sha_self g.sha_to_idx im.sha256 none,
              )
              (unfold slot_at in refl),
          λ k new old.
              rw
                (
                  images,
                  map,
                  set_sha_ne (set_sha g.sha_to_idx im.sha256 none) p.sha k (some i) new,
                  set_sha_ne g.sha_to_idx im.sha256 k none old,
                )
                (slot_at-put _ i _ (g.sha_to_idx k) (λ e. old (sym (s.shelved.found k i e).2))
                  ∙ slot_at-put g.images i _ (g.sha_to_idx k)
                      (λ e. old (sym (s.shelved.found k i e).2))),
        )

  -- An upgrade of a live image to a picture with a new digest succeeds and keeps the gallery sound.
  -- The new digest leads to the image, which has kept its id; the old digest is not found any more,
  -- and all other digests are found as before.
  pub upgrade_lem :
      (cfg : Config fl.Float) (g : G fl us) (image_id : ℤ) (i : ℕ) (p : Picture)
      (fs : List (DetectedFace fl.Float)) (now : ℕ)
      → IsSound fl us g
      → g.faces.size + length fs ≤ 2 ^ 32
      → live_row fl us g image_id ≡ some i
      → g.sha_to_idx p.sha ≡ none
      → let g' = upgrade_row fl us cfg g i p fs now in
        (upgrade fl us cfg g image_id p fs now ≡ some g')
        × IsSound fl us g'
        × (found_id (find_by_sha fl us g' p.sha) ≡ some image_id)
        × (find_by_sha fl us g' (g.images.at i).sha256 ≡ none)
        × ((k : Sha)
            → k ≢ p.sha
            → k ≢ (g.images.at i).sha256
            → find_by_sha fl us g' k ≡ find_by_sha fl us g k)
  unfolding upgrade upgrade_at
  upgrade_lem cfg g image_id i p fs now s room there fresh =
      let h = live_row_lem fl us g image_id i there in
      let found = find_by_sha-upgrade_row cfg g i p fs now s room h.0 h.1 fresh in
      (
        rw there refl,
        upgrade_row-IsSound cfg g i p fs now s room h.0 h.1 fresh,
        rw (found.0, h.2) (unfold mastered in ap (λ x. some (pos x)) (s.shelved.ids i h.0)),
        found.1,
        found.2,
      )

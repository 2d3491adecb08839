-- ===== src/Gallery/Images/Removal.antt =====
-- remove_image of src/store/gallery.cpp: the image, its file and its faces go, and nothing else.
use hvax.Prelude.{
  ℕ, suc, ◌<◌, ◌≡◌, ◌≢◌, refl, sym, ◌∙◌, true, false, Option, none, some, arith, put, ℤ, pos,
}
use hvax.Floats.{Floats}
use hvax.Hnsw.{Usearch}
use hvax.Types.{ImageSlot, tombstone, set_flag, slot_live}
use hvax.Gallery.State.{Sha}
use hvax.Gallery.Invariant.{G, IsConsistent, Follows, shows}
use hvax.Gallery.Faces.{tombstone_faces}
use hvax.Gallery.Faces.Keep.{tombstone_faces-Follows}
use hvax.Gallery.Faces.Burial.{shows-tombstone_faces}
use hvax.Gallery.Images.{
  set_sha, live_row, slot_at, find_by_sha, unlisted, remove_row, remove_at, remove_image,
}
use hvax.Gallery.Images.Keep.{slot_at-put, IsSound, refile, reslot, rows_inside, live_row_lem}
use hvax.Gallery.Shelf.{remove-IsShelved, set_sha_self, set_sha_ne}

module _ (fl : Floats) (us : Usearch fl.Float) where
  module _ (g : G fl us) (i : ℕ) (s : IsSound fl us g) (inside : i < g.images.size) where
    unlisted-IsConsistent : IsConsistent fl us (unlisted fl us g i)
    unfolding unlisted
    unlisted-IsConsistent =
        let im = g.images.at i in
        let x : ImageSlot = record im { flags = set_flag tombstone im.flags } in
        refile fl us (record g { images = put g.images i x }) (set_sha g.sha_to_idx im.sha256 none)
          g.masters (reslot fl us g i x s.consistent)

    emptied :
        (now : ℕ)
        → Follows fl us 0
            (unlisted fl us g i)
            (tombstone_faces fl us (unlisted fl us g i) (g.image_faces.at i) now)
    emptied now =
        tombstone_faces-Follows fl us (unlisted fl us g i) (g.image_faces.at i) now
          unlisted-IsConsistent (unfold unlisted in rows_inside fl us g i s inside)

    -- Removing a live image keeps the gallery sound.
    remove_row-IsSound :
        (now : ℕ)
        → slot_live (g.images.at i).flags ≡ true
        → IsSound fl us (remove_row fl us g i now)
    unfolding remove_row
    remove_row-IsSound now live =
        let g' = tombstone_faces fl us (unlisted fl us g i) (g.image_faces.at i) now in
        record {
          consistent =
              refile fl us g' g'.sha_to_idx (set_sha g'.masters (g.images.at i).sha256 none)
                (emptied now).0;
          shelved =
              rw ((emptied now).1.images, (emptied now).1.sha_to_idx, (emptied now).1.masters)
                (unfold unlisted in
                  remove-IsShelved g.images g.sha_to_idx g.masters s.shelved i inside live);
        }

    -- No face of a removed image is live.
    shows-remove_row : (now r : ℕ) → shows fl us (remove_row fl us g i now) i r ≡ false
    unfolding remove_row unlisted
    shows-remove_row now r = ground (
      arith,
      shows-tombstone_faces fl us (unlisted fl us g i) (g.image_faces.at i) now i r,
      s.consistent.faces.shown i r inside,
    )

    -- Its digest is not found any more, and every other digest is found as before.
    find_by_sha-remove_row :
        (now : ℕ)
        → slot_live (g.images.at i).flags ≡ true
        → (find_by_sha fl us (remove_row fl us g i now) (g.images.at i).sha256 ≡ none)
          × ((k : Sha)
              → k ≢ (g.images.at i).sha256
              → find_by_sha fl us (remove_row fl us g i now) k ≡ find_by_sha fl us g k)
    unfolding remove_row find_by_sha
    find_by_sha-remove_row now live =
        let im = g.images.at i in
        let images : (tombstone_faces fl us (unlisted fl us g i) (g.image_faces.at i) now).images
            ≡ put g.images i (record im { flags = set_flag tombstone im.flags }) =
          (emptied now).1.images ∙ unfold unlisted in refl in
        let map : (tombstone_faces fl us (unlisted fl us g i) (g.image_faces.at i) now).sha_to_idx
            ≡ set_sha g.sha_to_idx im.sha256 none =
          (emptied now).1.sha_to_idx ∙ unfold unlisted in refl in
        (
          rw (images, map, set_sha_self g.sha_to_idx im.sha256 none) (unfold slot_at in refl),
          λ k n.
              rw (images, map, set_sha_ne g.sha_to_idx im.sha256 k none n)
                (slot_at-put g.images i _ (g.sha_to_idx k)
                  (λ e. n (sym (s.shelved.found k i e).2))),
        )

  -- `remove_image` keeps the gallery sound, for any id.
  pub remove_image-IsSound :
      (g : G fl us) (image_id : ℤ) (now : ℕ)
      → IsSound fl us g
      → IsSound fl us (remove_image fl us g image_id now).1
  unfolding remove_image remove_at
  remove_image-IsSound g image_id now s =
      go (live_row fl us g image_id) (live_row_lem fl us g image_id)
    where
      go :
          (o : Option ℕ)
          → ((i : ℕ)
              → o ≡ some i
              → (i < g.images.size)
                × (slot_live (g.images.at i).flags ≡ true)
                × (image_id ≡ pos (suc i)))
          → IsSound fl us (remove_at fl us g o now).1
      go none h = s
      go (some i) h = remove_row-IsSound g i s (h i refl).0 now (h i refl).1

  -- `remove_image` of a live image: it says so, the digest of the image is not found any more, all
  -- other digests are found as before, and no face of the image is live.
  pub remove_image_lem :
      (g : G fl us) (image_id : ℤ) (i now : ℕ)
      → IsSound fl us g
      → live_row fl us g image_id ≡ some i
      → let r = remove_image fl us g image_id now in
        (r.0 ≡ true)
        × (find_by_sha fl us r.1 (g.images.at i).sha256 ≡ none)
        × ((k : Sha) → k ≢ (g.images.at i).sha256 → find_by_sha fl us r.1 k ≡ find_by_sha fl us g k)
        × ((j : ℕ) → shows fl us r.1 i j ≡ false)
  unfolding remove_image remove_at
  remove_image_lem g image_id i now s there =
      let h = live_row_lem fl us g image_id i there in
      let found = find_by_sha-remove_row g i s h.0 now h.1 in
      rw there (refl, found.0, found.1, shows-remove_row g i s h.0 now)

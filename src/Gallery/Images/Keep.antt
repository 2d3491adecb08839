-- ===== src/Gallery/Images/Keep.antt =====
-- insert and remove_image of src/store/gallery.cpp keep a gallery sound, and do to the pictures what
-- they say.
use hvax.Prelude.{
  ℕ, zero, suc, ◌+◌, ◌≤◌, ◌<◌, ◌≡◌, ◌≢◌, ◌^◌, refl, ◌∙◌, true, Option, none, some, List, [], ◌∷◌,
  arith, Table, put, push, length, All, count, ℤ, pos, negsuc,
}
use hvax.Floats.{Floats}
use hvax.Hnsw.{Usearch}
use hvax.Types.{DetectedFace, ImageSlot, slot_live, has}
use hvax.Gallery.State.{Config, Sha}
use hvax.Gallery.Invariant.{G, IsConsistent, Follows}
use hvax.Gallery.Faces.{append_faces}
use hvax.Gallery.Faces.Keep.{append_faces-Follows}
use hvax.Gallery.Images.{
  Picture, set_sha, live_row, slot_at, find_by_sha, new_image_slot, started, insert,
}
use hvax.Gallery.Shelf.{IsShelved, push-IsShelved, set_sha_self, set_sha_ne}

live_zero : slot_live 0 ≡ true
unfolding slot_live has
live_zero = refl

-- What a list holds, its entries are.
pub All-of_count :
    (n : ℕ) (rows : List ℕ) → ((r : ℕ) → 0 < count r rows → r < n) → All (λ r. r < n) rows
All-of_count n [] h = tt
All-of_count n (x ∷ rows) h = (h x (ground arith), All-of_count n rows (λ r c. h r (ground arith)))

slot_at-push :
    (images : Table ImageSlot) (x : ImageSlot) (o : Option ℕ)
    → ((i : ℕ) → o ≡ some i → i < images.size)
    → slot_at (push images x) o ≡ slot_at images o
unfolding slot_at
slot_at-push images x none h = refl
slot_at-push images x (some i) h = ground (arith, h i refl)

pub slot_at-put :
    (images : Table ImageSlot) (i : ℕ) (x : ImageSlot) (o : Option ℕ)
    → o ≢ some i
    → slot_at (put images i x) o ≡ slot_at images o
unfolding slot_at
slot_at-put images i x none h = refl
slot_at-put images i x (some j) h = ground (arith, h)

module _ (fl : Floats) (us : Usearch fl.Float) where
  -- All that holds of a gallery between two calls.
  pub record IsSound (g : G fl us) : Type 0 where
    pub consistent : IsConsistent fl us g
    pub shelved : IsShelved g.images g.sha_to_idx g.masters

  -- The digest map and the files are no part of the consistency of faces.
  pub refile :
      (g : G fl us) (map : Sha → Option ℕ) (files : Sha → Option (List ℕ))
      → IsConsistent fl us g
      → IsConsistent fl us (record g { sha_to_idx = map; masters = files })
  refile g map files c = record {
    aligned = record {
      embs = c.aligned.embs;
      embs_i8 = c.aligned.embs_i8;
      flags_cache = c.aligned.flags_cache;
      image_faces = c.aligned.image_faces;
      members = c.aligned.members;
      hidden = c.aligned.hidden;
      tallied = c.aligned.tallied;
      centroids = c.aligned.centroids;
      rows_fit = c.aligned.rows_fit;
    };
    membership = record {
      listed = c.membership.listed;
      in_range = c.membership.in_range;
      indexable = c.membership.indexable;
    };
    counted = λ id h. record { size = (c.counted id h).size; live = (c.counted id h).live };
    mirrored = c.mirrored;
    faces = record {
      cached = c.faces.cached;
      shown = c.faces.shown;
      on_image = c.faces.on_image;
      indexed = c.faces.indexed;
    };
  }

  -- Nor is what the slot of an image says of its picture.
  pub reslot :
      (g : G fl us) (i : ℕ) (x : ImageSlot)
      → IsConsistent fl us g
      → IsConsistent fl us (record g { images = put g.images i x })
  reslot g i x c = record {
    aligned = record {
      embs = c.aligned.embs;
      embs_i8 = c.aligned.embs_i8;
      flags_cache = c.aligned.flags_cache;
      image_faces = c.aligned.image_faces;
      members = c.aligned.members;
      hidden = c.aligned.hidden;
      tallied = c.aligned.tallied;
      centroids = c.aligned.centroids;
      rows_fit = c.aligned.rows_fit;
    };
    membership = record {
      listed = c.membership.listed;
      in_range = c.membership.in_range;
      indexable = c.membership.indexable;
    };
    counted = λ id h. record { size = (c.counted id h).size; live = (c.counted id h).live };
    mirrored = c.mirrored;
    faces = record {
      cached = c.faces.cached;
      shown = c.faces.shown;
      on_image = c.faces.on_image;
      indexed = c.faces.indexed;
    };
  }

  -- A new image without faces.
  new_image :
      (g : G fl us) (x : ImageSlot)
      → IsConsistent fl us g
      → IsConsistent fl us
          (record g { images = push g.images x; image_faces = push g.image_faces [] })
  new_image g x c = record {
    aligned = record {
      embs = c.aligned.embs;
      embs_i8 = c.aligned.embs_i8;
      flags_cache = c.aligned.flags_cache;
      image_faces = omega (arith, c.aligned.image_faces);
      members = c.aligned.members;
      hidden = c.aligned.hidden;
      tallied = c.aligned.tallied;
      centroids = c.aligned.centroids;
      rows_fit = c.aligned.rows_fit;
    };
    membership = record {
      listed = c.membership.listed;
      in_range = c.membership.in_range;
      indexable = c.membership.indexable;
    };
    counted = λ id h. record { size = (c.counted id h).size; live = (c.counted id h).live };
    mirrored = c.mirrored;
    faces = record {
      cached = c.faces.cached;
      shown =
          λ i r h. ground (arith, c.faces.shown i r, c.faces.on_image r, c.aligned.image_faces, h);
      on_image = λ r h. ground (arith, c.faces.on_image r h);
      indexed = c.faces.indexed;
    };
  }

  module _ (cfg : Config fl.Float) (g : G fl us) (p : Picture)
      (faces : List (DetectedFace fl.Float)) (now : ℕ) (s : IsSound g)
      (room : g.faces.size + length faces ≤ 2 ^ 32) (fresh : g.sha_to_idx p.sha ≡ none) where
    started-IsConsistent : IsConsistent fl us (started fl us g p faces now)
    unfolding started
    started-IsConsistent =
        refile (record g { images = push g.images x; image_faces = push g.image_faces [] })
          g.sha_to_idx (set_sha g.masters p.sha (some p.bytes)) (new_image g x s.consistent)
      where
        x : ImageSlot
        x = new_image_slot fl us g.images.size p faces now

    -- The faces of the new image.
    filled :
        Follows fl us
          (length faces)
          (started fl us g p faces now)
          (append_faces fl us cfg (started fl us g p faces now) (suc g.images.size) faces now)
    filled =
        append_faces-Follows fl us cfg (started fl us g p faces now) g.images.size faces now
          started-IsConsistent (unfold started in room) (unfold started in omega arith)

    -- Inserting a picture with a new digest keeps the gallery sound, if its faces have room.
    pub insert-IsSound : IsSound (insert fl us cfg g p faces now).1
    unfolding insert
    insert-IsSound =
        let g' =
          append_faces fl us cfg (started fl us g p faces now) (suc g.images.size) faces now in
        record {
          consistent =
              refile g' (set_sha g'.sha_to_idx p.sha (some g.images.size)) g'.masters filled.0;
          shelved =
              rw (filled.1.images, filled.1.sha_to_idx, filled.1.masters)
                (unfold started new_image_slot in
                  push-IsShelved g.images g.sha_to_idx g.masters s.shelved
                    (new_image_slot fl us g.images.size p faces now) p.bytes fresh refl live_zero);
        }

    -- The new image is found by its digest, under the id that `insert` returns, and nothing else is
    -- found that was not.
    pub find_by_sha-insert :
        let r = insert fl us cfg g p faces now in
        (find_by_sha fl us r.1 p.sha ≡ some (new_image_slot fl us g.images.size p faces now))
        × ((new_image_slot fl us g.images.size p faces now).image_id ≡ r.0)
        × ((k : Sha) → k ≢ p.sha → find_by_sha fl us r.1 k ≡ find_by_sha fl us g k)
    unfolding insert find_by_sha
    find_by_sha-insert =
        let x = new_image_slot fl us g.images.size p faces now in
        let images : (append_faces fl us cfg (started fl us g p faces now) (suc g.images.size) faces
              now).images
            ≡ push g.images x =
          filled.1.images ∙ unfold started in refl in
        let map : (append_faces fl us cfg (started fl us g p faces now) (suc g.images.size) faces
              now).sha_to_idx
            ≡ g.sha_to_idx =
          filled.1.sha_to_idx ∙ unfold started in refl in
        (
          rw (images, map, set_sha_self g.sha_to_idx p.sha (some g.images.size))
              (unfold slot_at in ground arith),
          unfold new_image_slot in refl,
          λ k n.
              rw (images, map, set_sha_ne g.sha_to_idx p.sha k (some g.images.size) n)
                (slot_at-push g.images x (g.sha_to_idx k) (λ i e. (s.shelved.found k i e).0)),
        )

  -- What a removal and an upgrade start from.
  module _ (g : G fl us) (i : ℕ) (s : IsSound g) (inside : i < g.images.size) where
    pub rows_inside : All (λ r. r < g.faces.size) (g.image_faces.at i)
    rows_inside =
        All-of_count g.faces.size (g.image_faces.at i)
          λ r h. ground (arith, s.consistent.faces.shown i r inside, h)

  -- The row of a live image, for any id: it is inside the table, live, and the id is one more.
  pub live_row_lem :
      (g : G fl us) (image_id : ℤ) (i : ℕ)
      → live_row fl us g image_id ≡ some i
      → (i < g.images.size) × (slot_live (g.images.at i).flags ≡ true) × (image_id ≡ pos (suc i))
  unfolding live_row
  live_row_lem g (negsuc n) i e = cc
  live_row_lem g (pos zero) i e = cc
  live_row_lem g (pos (suc j)) i e = (ground (arith, e), ground (arith, e), ground (arith, e))

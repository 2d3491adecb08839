-- ===== src/Engine/Persist.antt =====
-- What persist_ingest of src/engine.cpp does to a sound gallery.
use hvax.Prelude.{
  ℕ, suc, ◌+◌, ◌*◌, ◌≤◌, ◌<◌, ◌≡◌, ◌^◌, refl, ap, ◌∙◌, Bool, true, false, ◌&&◌, ◌||◌, Option, none,
  some, List, [], ◌∷◌, ltb, leb, if◌then◌else◌, length, arith, Bool-cases, inl, inr, pos,
}
use hvax.Floats.{Floats}
use hvax.Hnsw.{Usearch}
use hvax.Types.{DetectedFace, ImageSlot, slot_live}
use hvax.Gallery.State.{Config, Sha}
use hvax.Gallery.Invariant.{G}
use hvax.Gallery.Images.{Picture, live_row, slot_at, find_by_sha, insert}
use hvax.Gallery.Images.Keep.{IsSound, insert-IsSound, find_by_sha-insert}
use hvax.Gallery.Upgrade.{upgrade_row}
use hvax.Gallery.Upgrade.Keep.{found_id, upgrade_lem}
use hvax.Gallery.Dedup.{DedupHit, find_perceptual}
use hvax.Gallery.Dedup.Nearest.{Near, find_perceptual_lem}
use hvax.Gallery.Reads.{image, image_row}
use hvax.Engine.{
  IngestStatus, stored, upgraded, IngestResult, Result, none_of, confirm_soft, duplicate_of,
  upgraded_to, stored_as, without_image, store_new, replace_if_larger, persist_dup, persist_sha,
  persist_ingest, by_perceptual,
}

module _ (fl : Floats) (us : Usearch fl.Float) where
  -- Without an entry in the digest map nothing is found.
  find_none : (g : G fl us) (sha : Sha) → find_by_sha fl us g sha ≡ none → g.sha_to_idx sha ≡ none
  unfolding find_by_sha
  find_none g sha e = go (g.sha_to_idx sha) e
    where
      go : (o : Option ℕ) → slot_at g.images o ≡ none → o ≡ none
      go none e = refl
      go (some i) e = absurd (unfold slot_at in cc)

  -- The image that a live row holds.
  pub image_live :
      (g : G fl us) (i : ℕ)
      → IsSound fl us g
      → i < g.images.size
      → slot_live (g.images.at i).flags ≡ true
      → (live_row fl us g (pos (suc i)) ≡ some i)
        × (image fl us g (pos (suc i)) ≡ some (g.images.at i))
  unfolding image image_row live_row
  image_live g i s inside live =
      let there : (ltb i g.images.size && slot_live (g.images.at i).flags) ≡ true =
        ground (arith, inside, live) in
      (rw there refl, rw there (rw (s.shelved.ids i inside) (ground arith)))

  -- What an answer says of the gallery after it: where the picture was stored, its digest leads to the
  -- image of the answer, and otherwise nothing has changed.
  abbrev pub Effect : G fl us → Picture → IngestStatus → ℕ → G fl us → Type 0
  Effect g p stored id g' = found_id (find_by_sha fl us g' p.sha) ≡ some (pos id)
  Effect g p upgraded id g' = found_id (find_by_sha fl us g' p.sha) ≡ some (pos id)
  Effect g p _ id g' = g' ≡ g

  pub record Persisted (g : G fl us) (p : Picture) (o : Option (Result fl us)) : Type 0 where
    pub result : IngestResult fl.Float
    pub after : G fl us
    pub returns : o ≡ some (result, after)
    pub sound : IsSound fl us after
    pub effect : Effect g p result.status result.image_id after

  module _ (cfg : Config fl.Float) (g : G fl us) (p : Picture)
      (faces : List (DetectedFace fl.Float)) (now : ℕ) (s : IsSound fl us g)
      (room : g.faces.size + length faces ≤ 2 ^ 32) where
    unchanged :
        (r : IngestResult fl.Float) → Effect g p r.status r.image_id g → Persisted g p (some (r, g))
    unchanged r e = record { result = r; after = g; returns = refl; sound = s; effect = e }

    module _ (fresh : g.sha_to_idx p.sha ≡ none) where
      store_new-Persisted : Persisted g p (some (store_new fl us cfg g p faces now))
      store_new-Persisted = go faces room
        where
          go :
              (fs : List (DetectedFace fl.Float))
              → g.faces.size + length fs ≤ 2 ^ 32
              → Persisted g p (some (store_new fl us cfg g p fs now))
          go [] room' = unfold store_new without_image in unchanged _ refl
          go (f ∷ fs) room' =
              let r = insert fl us cfg g p (f ∷ fs) now in
              let found = find_by_sha-insert fl us cfg g p (f ∷ fs) now s room' fresh in
              unfold store_new stored_as in
              record {
                result = stored_as fl us r.1 r.0 p;
                after = r.1;
                returns = refl;
                sound = insert-IsSound fl us cfg g p (f ∷ fs) now s room' fresh;
                effect = rw found.0 (ap (λ n. some (pos n)) found.1);
              }

      replace_if_larger-Persisted :
          (i : ℕ)
          → i < g.images.size
          → slot_live (g.images.at i).flags ≡ true
          → Persisted g p (replace_if_larger fl us cfg g (g.images.at i) p faces now)
      unfolding replace_if_larger duplicate_of upgraded_to
      replace_if_larger-Persisted i inside live =
          let im = g.images.at i in
          let row : live_row fl us g (pos im.image_id) ≡ some i =
            rw (s.shelved.ids i inside) (image_live g i s inside live).0 in
          let u = upgrade_lem fl us cfg g (pos im.image_id) i p faces now s room row fresh in
          let g' = upgrade_row fl us cfg g i p faces now in
          elim (Bool-cases (leb (p.cols * p.rows) (im.width * im.height) || none_of faces)) [
            | inl smaller ↦ rw smaller (unchanged (duplicate_of fl us g im by_perceptual) refl)
            | inr larger ↦
                rw (larger, u.0)
                  (record {
                    result = upgraded_to fl us g' im p;
                    after = g';
                    returns = refl;
                    sound = u.1;
                    effect = u.2;
                  })
          ]

      persist_dup-Persisted :
          (o : Option DedupHit)
          → Near fl us cfg g.images p.phash p.dhash g.images.size o
          → Persisted g p (persist_dup fl us cfg g p faces now o)
      unfolding persist_dup
      persist_dup-Persisted none near = store_new-Persisted
      persist_dup-Persisted (some d) near =
          elim (Bool-cases (d.hard || confirm_soft fl us g d.image_id faces)) [
            | inl same ↦
                rw
                  (
                    same,
                    near.image_id ∙ s.shelved.ids near.row near.inside,
                    (image_live g near.row s near.inside near.live).1,
                  )
                  (replace_if_larger-Persisted near.row near.inside near.live)
            | inr other ↦ rw other store_new-Persisted
          ]

    persist_sha-Persisted :
        (o : Option ImageSlot)
        → (o ≡ none → g.sha_to_idx p.sha ≡ none)
        → Persisted g p (persist_sha fl us cfg g p faces now o)
    unfolding persist_sha duplicate_of
    persist_sha-Persisted (some hit) h = unchanged _ refl
    persist_sha-Persisted none h = go cfg.dedup_perceptual
      where
        go :
            (on : Bool)
            → Persisted g p (
                persist_dup fl us cfg g p faces now
                  (if on then find_perceptual fl us cfg g p.phash p.dhash else none))
        go true =
            persist_dup-Persisted (h refl) (find_perceptual fl us cfg g p.phash p.dhash)
              (find_perceptual_lem fl us cfg g p.phash p.dhash).0
        go false = persist_dup-Persisted (h refl) none tt

    -- With room for its faces, a picture is taken in without an exception, and the gallery stays
    -- sound. If the answer is that it was stored or has become a master, its digest leads to the image
    -- of the answer; else the gallery is as it was.
    pub persist_ingest-Persisted : Persisted g p (persist_ingest fl us cfg g p faces now)
    unfolding persist_ingest
    persist_ingest-Persisted = persist_sha-Persisted (find_by_sha fl us g p.sha) (find_none g p.sha)

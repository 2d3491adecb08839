-- ===== src/Gallery/Dedup.antt =====
-- find_perceptual of src/store/gallery.cpp, and hamming64 of include/hvax/store/phash.hpp.
pub mod Nearest
use hvax.Prelude.{
  ℕ, zero, suc, ◌+◌, ◌/◌, ◌%◌, Bool, true, false, not, ◌&&◌, ◌||◌, Option, none, some, ltb, leb,
  ◌==◌, if◌then◌else◌, Table,
}
use hvax.Floats.{Floats}
use hvax.Hnsw.{Usearch}
use hvax.Types.{ImageSlot, slot_live}
use hvax.Gallery.State.{Gallery, Config}

-- The number of the lowest `n` bits in which two words differ.
unfoldable pub differing : ℕ → ℕ → ℕ → ℕ
differing zero a b = 0
differing (suc n) a b = (if a % 2 == b % 2 then 0 else 1) + differing n (a / 2) (b / 2)

unfoldable pub hamming64 : ℕ → ℕ → ℕ
unfolding differing
hamming64 a b = differing 64 a b

pub record DedupHit : Type 0 where
  pub image_id : ℕ
  pub ph_dist : ℕ
  pub dh_dist : ℕ
  pub hard : Bool

-- The best hard hit, the best soft hit and the distance of the latter, within the loop.
pub record DedupState : Type 0 where
  pub hard : Option DedupHit
  pub soft : Option DedupHit
  pub best_soft : ℕ

-- `!hard || pd + dd < hard->ph_dist + hard->dh_dist`
unfoldable pub beats_hard : ℕ → Option DedupHit → Bool
beats_hard d none = true
beats_hard d (some h) = ltb d (h.ph_dist + h.dh_dist)

-- The loop body for a live image, by its id and its distances.
unfoldable pub dedup_step : ℕ → ℕ → ℕ → ℕ → ℕ → DedupState → DedupState
unfolding beats_hard
dedup_step phash_threshold dhash_threshold image_id pd dd s =
    let ph_ok = leb pd phash_threshold in
    let dh_ok = leb dd dhash_threshold in
    let hit : Bool → DedupHit =
      λ hard. record { image_id = image_id; ph_dist = pd; dh_dist = dd; hard = hard } in
    if ph_ok && dh_ok
    then record s { hard = if beats_hard (pd + dd) s.hard then some (hit true) else s.hard }
    else (if ph_ok || dh_ok
        then record s {
          soft = if ltb (pd + dd) s.best_soft then some (hit false) else s.soft;
          best_soft = if ltb (pd + dd) s.best_soft then pd + dd else s.best_soft;
        }
        else s)

module _ (fl : Floats) (us : Usearch fl.Float) where
  open fl use {Float}
  open us use {Index}

  unfoldable pub dedup_image : Config Float → ImageSlot → ℕ → ℕ → DedupState → DedupState
  unfolding dedup_step hamming64
  dedup_image cfg im phash dhash s =
      if slot_live im.flags
      then dedup_step cfg.phash_threshold cfg.dhash_threshold im.image_id (hamming64 phash im.phash)
          (hamming64 dhash im.dhash) s
      else s

  -- The loop over the images below `n`.
  unfoldable pub dedup_loop : Config Float → Table ImageSlot → ℕ → ℕ → ℕ → DedupState
  unfolding dedup_image
  dedup_loop cfg images phash dhash zero = record {
    hard = none;
    soft = none;
    best_soft = 1000000000;
  }
  dedup_loop cfg images phash dhash (suc n) =
      dedup_image cfg (images.at n) phash dhash (dedup_loop cfg images phash dhash n)

  -- `if (hard) return hard; return soft;`
  unfoldable pub hard_first : Option DedupHit → Option DedupHit → Option DedupHit
  hard_first none soft = soft
  hard_first (some h) soft = some h

  unfoldable pub find_perceptual : Config Float → Gallery Float Index → ℕ → ℕ → Option DedupHit
  unfolding dedup_loop hard_first
  find_perceptual cfg g phash dhash =
      let s = dedup_loop cfg g.images phash dhash g.images.size in hard_first s.hard s.soft

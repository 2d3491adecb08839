-- ===== src/Engine/Tests.antt =====
-- Uploads to the small gallery.
use hvax.Prelude.{refl, inl, true, false, [], ◌∷◌, arith}
use hvax.Types.{slot_live, has}
use hvax.Gallery.State.{sha_eq}
use hvax.Gallery.Images.{Picture, live_row, slot_at, find_by_sha, insert}
use hvax.Gallery.Dedup.{
  differing, hamming64, beats_hard, dedup_step, dedup_image, dedup_loop, hard_first,
  find_perceptual,
}
use hvax.Gallery.Reads.{image, image_row}
use hvax.Engine.{
  IngestCheckResult, stored_as, checked_as, by_perceptual, check_dup, check_sha, check_ingest,
  store_new, persist_dup, persist_sha, persist_ingest,
}
use hvax.Engine.Persist.{Persisted, persist_ingest-Persisted}
use hvax.Engine.Repeat.{IsRepeat, persist_ingest-idempotent, check_ingest-agrees}
use hvax.Examples.{hundredths, key_set, settings, a_face, a_picture, sample}
use hvax.Examples.Sample.{sample-IsSound}

persist_ingest-Persisted_example :
    Persisted hundredths key_set sample a_picture
      (persist_ingest hundredths key_set settings sample a_picture (a_face ∷ []) 5)
persist_ingest-Persisted_example =
    persist_ingest-Persisted hundredths key_set settings sample a_picture (a_face ∷ []) 5
      sample-IsSound (omega arith)

-- The second time no face is found, and it is a duplicate all the same.
persist_ingest-idempotent_example :
    let r = insert hundredths key_set settings sample a_picture (a_face ∷ []) 5 in
    IsRepeat hundredths key_set
      (persist_ingest hundredths key_set settings r.1 a_picture [] 6)
      r.0
      r.1
unfolding persist_ingest persist_sha persist_dup store_new stored_as find_by_sha slot_at sha_eq
    find_perceptual dedup_loop dedup_image dedup_step beats_hard hard_first hamming64 differing
    slot_live has
persist_ingest-idempotent_example =
    let r = insert hundredths key_set settings sample a_picture (a_face ∷ []) 5 in
    persist_ingest-idempotent hundredths key_set settings sample a_picture (a_face ∷ []) [] 5 6
      sample-IsSound (omega arith) (stored_as hundredths key_set r.1 r.0 a_picture) r.1 refl
      (inl refl)

-- The picture of the image in the gallery, in another encoding.
abbrev recoded : Picture
recoded = record {
  bytes = 1 ∷ [];
  cols = 10;
  rows = 10;
  sha = 9 ∷ [];
  mime = 2;
  phash = 3;
  dhash = 1;
}

abbrev named : IngestCheckResult
named = record {
  duplicate = true;
  process_required = false;
  duplicate_kind = by_perceptual;
  image_id = 1;
  width = 10;
  height = 10;
}

check_ingest-agrees_example :
    IsRepeat hundredths key_set
      (persist_ingest hundredths key_set settings sample recoded (a_face ∷ []) 5)
      1
      sample
unfolding check_ingest check_sha check_dup checked_as find_by_sha slot_at sha_eq find_perceptual
    dedup_loop dedup_image dedup_step beats_hard hard_first hamming64 differing slot_live has image
    image_row live_row
check_ingest-agrees_example =
    check_ingest-agrees hundredths key_set settings sample recoded (a_face ∷ []) 5 named refl refl

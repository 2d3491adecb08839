-- ===== src/Examples/Sample.antt =====
-- The small gallery is sound.
use hvax.Prelude.{refl, [], ◌∷◌, arith}
use hvax.Hnsw.{contains}
use hvax.Types.{has, slot_live, face_indexable, u32}
use hvax.Gallery.State.{sha_eq}
use hvax.Gallery.Shelf.{sha_eq→eq}
use hvax.Gallery.Invariant.{IsConsistent}
use hvax.Gallery.Images.Keep.{IsSound}
use hvax.Examples.{hundredths, key_set, sample}

sample-IsConsistent : IsConsistent hundredths key_set sample
unfolding contains slot_live face_indexable has u32
sample-IsConsistent = record {
  aligned = record {
    embs = refl;
    embs_i8 = refl;
    flags_cache = refl;
    image_faces = refl;
    members = refl;
    hidden = refl;
    tallied = refl;
    centroids = refl;
    rows_fit = omega arith;
  };
  membership = record {
    listed = λ id r h. ground (arith, h);
    in_range = λ r h. ground (arith, h);
    indexable = λ r h. ground (arith, h);
  };
  counted = λ id h. record { size = ground (arith, h); live = ground (arith, h) };
  mirrored = λ id h. refl;
  faces = record {
    cached = λ r h. refl;
    shown = λ i r h. ground (arith, h);
    on_image = λ r h. ground (arith, h);
    indexed = λ r. ground arith;
  };
}

pub sample-IsSound : IsSound hundredths key_set sample
unfolding slot_live has
sample-IsSound = record {
  consistent = sample-IsConsistent;
  shelved = record {
    ids = λ i h. ground (arith, h);
    found = λ sha i h. ground (arith, sha_eq→eq sha (7 ∷ []), h);
    known = λ i h l. unfold sha_eq in ground (arith, h);
    filed = λ i h l. unfold sha_eq in ground (arith, h);
  };
}

-- ===== src/Gallery/Shared/Tests.antt =====
-- Who appears with whom in the small gallery, and when.
use hvax.Prelude.{
  ◌≤◌, ◌≡◌, arith, true, false, ◌&&◌, ◌==◌, if◌then◌else◌, ltb, All, map, count, length, pos,
}
use hvax.Types.{u32}
use hvax.Gallery.Shared.{cooccurring, shared_images, someone, common_images}
use hvax.Gallery.Shared.Common.{common_images_lem}
use hvax.Gallery.Shared.Swap.{swap, shared_images-swap}
use hvax.Gallery.Shared.Agree.{cooccurring-shared_images}
use hvax.Examples.{hundredths, key_set, sample}
use hvax.Examples.Sample.{sample-IsSound}

common_images_lem_example : count 1 (common_images hundredths key_set sample 0 1) ≡ (
    if ltb 0 sample.images.size
      && (someone hundredths key_set sample 0 (sample.image_faces.at 0)
          && someone hundredths key_set sample 1 (sample.image_faces.at 0))
    then 1
    else 0)
common_images_lem_example =
    common_images_lem hundredths key_set sample sample-IsSound.consistent 0 1 0 (omega arith)

shared_images-swap_example :
    let out = shared_images hundredths key_set sample (pos 1) (pos 0) 0 5 true in
    shared_images hundredths key_set sample (pos 0) (pos 1) 0 5 true ≡ (map swap out.0, out.1)
shared_images-swap_example =
    shared_images-swap hundredths key_set sample sample-IsSound.consistent (pos 0) (pos 1) 0 5 true

cooccurring-shared_images_example :
    let out = cooccurring hundredths key_set sample (pos 0) 5 true in
    (length out ≤ 5)
    × All
        (λ e.
          ((0 == e.identity_id) ≡ false)
          × (e.shared_images
              ≡ u32
                  (shared_images hundredths key_set sample (pos 0) (pos e.identity_id) 0 5 true).1))
        out
cooccurring-shared_images_example =
    cooccurring-shared_images hundredths key_set sample sample-IsSound.consistent 0 5 0 5 true

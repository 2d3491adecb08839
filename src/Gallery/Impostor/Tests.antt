-- ===== src/Gallery/Impostor/Tests.antt =====
-- Random pairs of the small gallery, whose three faces are on one image.
use hvax.Prelude.{◌≡◌, refl, arith, none, []}
use hvax.Types.{face_indexable, has}
use hvax.Gallery.Impostor.{pool_below, random_pairs}
use hvax.Gallery.Impostor.Endless.{pool, random_pairs-endless}
use hvax.Examples.{hundredths, key_set, sample}

three_rows : (pool hundredths key_set sample).size ≡ 3
unfolding pool_below face_indexable has
three_rows = refl

random_pairs-endless_example : random_pairs hundredths key_set sample 10 [] (λ i. 0) 100 ≡ none
random_pairs-endless_example =
    random_pairs-endless hundredths key_set sample 10 [] (λ i. 0) 100 1 (omega (arith, three_rows))
      (omega arith) (λ i. omega (arith, three_rows)) (λ r h e. refl)

-- ===== src/Gallery/Counts/Tests.antt =====
-- The counters and questions on the small gallery.
use hvax.Prelude.{◌≡◌, refl, pos, arith}
use hvax.Types.{has, hidden_flag}
use hvax.Gallery.Counts.{identity_hidden, face_hidden}
use hvax.Gallery.Counts.Agree.{face_hidden_lem}
use hvax.Examples.{hundredths, key_set, sample}
use hvax.Examples.Sample.{sample-IsSound}

face_hidden_lem_example :
    (face_hidden hundredths key_set sample (pos 2) ≡ has hidden_flag (sample.identities.at 1).flags)
    × (identity_hidden hundredths key_set sample (pos 1)
        ≡ has hidden_flag (sample.identities.at 1).flags)
face_hidden_lem_example =
    face_hidden_lem hundredths key_set sample sample-IsSound.consistent 2 1 (omega arith) refl

-- ===== src/Gallery/Queries/Tests.antt =====
-- Queries of the small gallery.
use hvax.Prelude.{◌≤◌, false, All, [], ◌∷◌, count, length}
use hvax.Gallery.Queries.{search_identities}
use hvax.Gallery.Queries.Visible.{IsIdentityHit, ids_of, search_identities_lem}
use hvax.Examples.{hundredths, key_set, sample}
use hvax.Examples.Sample.{sample-IsSound}

search_identities_lem_example :
    let hits = search_identities hundredths key_set sample (100 ∷ []) 2 0 false in
    All (IsIdentityHit hundredths key_set sample (100 ∷ []) 0 false) hits
    × (length hits ≤ 2)
    × (count 0 (ids_of hits) ≤ 1)
search_identities_lem_example =
    search_identities_lem hundredths key_set sample sample-IsSound.consistent (100 ∷ []) 2 0 false 0

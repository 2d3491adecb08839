-- ===== src/Gallery/Search/Tests.antt =====
-- Searches of the small gallery.
use hvax.Prelude.{ℕ, ◌≤◌, refl, true, false, All, [], ◌∷◌, length, pos}
use hvax.Gallery.Search.{Hit, SearchOptions, group_hits}
use hvax.Gallery.Search.Hidden.{IsVisible, search_locked-IsVisible}
use hvax.Gallery.Search.Widen.{search_locked_total}
use hvax.Gallery.Search.Groups.{count_id, group_hits_lem}
use hvax.Examples.{hundredths, key_set, settings, frame, sample}
use hvax.Examples.Sample.{sample-IsSound}

abbrev grouped_search : SearchOptions ℕ
grouped_search = record {
  k = 2;
  min_score = 0;
  include_low_quality = false;
  range = false;
  group_by_identity = true;
  include_hidden = false;
}

search_locked-IsVisible_example :
    All
      (λ h. IsVisible hundredths key_set sample h.row)
      (search_locked_total hundredths key_set settings sample (100 ∷ []) grouped_search).0
search_locked-IsVisible_example =
    search_locked-IsVisible hundredths key_set sample sample-IsSound.consistent settings (100 ∷ [])
      grouped_search
      (search_locked_total hundredths key_set settings sample (100 ∷ []) grouped_search).0 refl
      (search_locked_total hundredths key_set settings sample (100 ∷ []) grouped_search).1

abbrev hit_of_zero : ℕ → Hit ℕ
hit_of_zero row = record {
  face_id = row;
  image_id = 1;
  sha256 = 7 ∷ [];
  row = row;
  score = 90;
  box = frame;
  det_score = 90;
  quality = 90;
  flags = 0;
  identity_id = pos 0;
  hidden = false;
  collapsed = 0;
}

group_hits_lem_example :
    let out = group_hits hundredths (hit_of_zero 0 ∷ hit_of_zero 1 ∷ []) 2 in
    (length out ≤ 2) × (count_id hundredths 0 out ≤ 1)
group_hits_lem_example = group_hits_lem hundredths (hit_of_zero 0 ∷ hit_of_zero 1 ∷ []) 2 0

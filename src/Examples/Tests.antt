-- ===== src/Examples/Tests.antt =====
-- The theorems at concrete inputs.
use hvax.Prelude.{
  ℕ, ◌<◌, ◌≡◌, ◌≢◌, refl, true, false, none, some, [], ◌∷◌, ltb, if◌then◌else◌, count, arith, pos,
  sort, unique,
}
use hvax.Prelude.Sort.{insert_sorted, unique_after}
use hvax.Types.{slot_live, has, u32}
use hvax.Gallery.State.{Sha, sha_eq}
use hvax.Gallery.Invariant.{shows}
use hvax.Gallery.Images.{live_row, find_by_sha, new_image_slot, insert, remove_image}
use hvax.Gallery.Images.Keep.{IsSound, find_by_sha-insert}
use hvax.Gallery.Images.Removal.{remove_image_lem}
use hvax.Gallery.Upgrade.{upgrade, upgrade_row}
use hvax.Gallery.Upgrade.Keep.{found_id, upgrade_lem}
use hvax.Gallery.Curation.{
  live_identity, live_rows, face_of_identity, moving_rows, merge_identities, split_identity,
}
use hvax.Gallery.Curation.Groups.{joins}
use hvax.Gallery.Curation.Merge.{merge_identities_lem}
use hvax.Gallery.Curation.Split.{split_identity_lem}
use hvax.Examples.{hundredths, key_set, settings, a_face, a_picture, face_row, sample}
use hvax.Examples.Sample.{sample-IsSound}

find_by_sha-insert_example :
    let r = insert hundredths key_set settings sample a_picture (a_face ∷ []) 5 in
    let x = new_image_slot hundredths key_set 1 a_picture (a_face ∷ []) 5 in
    (find_by_sha hundredths key_set r.1 (8 ∷ []) ≡ some x)
    × (x.image_id ≡ r.0)
    × ((k : Sha)
        → k ≢ 8 ∷ []
        → find_by_sha hundredths key_set r.1 k ≡ find_by_sha hundredths key_set sample k)
unfolding sha_eq
find_by_sha-insert_example =
    find_by_sha-insert hundredths key_set settings sample a_picture (a_face ∷ []) 5 sample-IsSound
      (omega arith) refl

remove_image_lem_example :
    let r = remove_image hundredths key_set sample (pos 1) 5 in
    (r.0 ≡ true)
    × (find_by_sha hundredths key_set r.1 (7 ∷ []) ≡ none)
    × ((k : Sha)
        → k ≢ 7 ∷ []
        → find_by_sha hundredths key_set r.1 k ≡ find_by_sha hundredths key_set sample k)
    × ((j : ℕ) → shows hundredths key_set r.1 0 j ≡ false)
unfolding live_row slot_live has
remove_image_lem_example =
    remove_image_lem hundredths key_set sample (pos 1) 0 5 sample-IsSound refl

upgrade_lem_example :
    let g' = upgrade_row hundredths key_set settings sample 0 a_picture (a_face ∷ []) 5 in
    (upgrade hundredths key_set settings sample (pos 1) a_picture (a_face ∷ []) 5 ≡ some g')
    × IsSound hundredths key_set g'
    × (found_id (find_by_sha hundredths key_set g' (8 ∷ [])) ≡ some (pos 1))
    × (find_by_sha hundredths key_set g' (7 ∷ []) ≡ none)
    × ((k : Sha)
        → k ≢ 8 ∷ []
        → k ≢ 7 ∷ []
        → find_by_sha hundredths key_set g' k ≡ find_by_sha hundredths key_set sample k)
unfolding live_row slot_live has sha_eq
upgrade_lem_example =
    upgrade_lem hundredths key_set settings sample (pos 1) 0 a_picture (a_face ∷ []) 5
      sample-IsSound (omega arith) refl refl

-- Identity 1 is merged into identity 0: face 2 changes its reference.
merge_identities_lem_example :
    let r = merge_identities hundredths key_set sample (pos 1 ∷ pos 0 ∷ []) 5 in
    (r.0 ≡ some 0)
    × ((j : ℕ)
        → j < 3
        → (r.1.faces.at j).identity_ref
          ≡ (if joins (1 ∷ []) (face_row j).identity_ref then 1 else (face_row j).identity_ref))
unfolding live_rows live_identity slot_live has sort unique insert_sorted unique_after
merge_identities_lem_example =
    merge_identities_lem hundredths key_set sample (pos 1 ∷ pos 0 ∷ []) 5 (1 ∷ 0 ∷ []) 0 1 []
      sample-IsSound.consistent refl refl

-- Face 1 is split off from identity 0.
split_identity_lem_example :
    let r = split_identity hundredths key_set sample (pos 0) (pos 1 ∷ []) 5 in
    (r.0 ≡ some 2)
    × ((j : ℕ)
        → (r.1.faces.at j).identity_ref
          ≡ (if ltb 0 (count j (1 ∷ [])) then 3 else (face_row j).identity_ref))
unfolding moving_rows face_of_identity live_identity slot_live has sort unique insert_sorted
    unique_after u32
split_identity_lem_example =
    split_identity_lem hundredths key_set sample (pos 0) (pos 1) [] 5 0 (1 ∷ [])
      sample-IsSound.consistent refl refl (omega arith)

-- ===== src/Gallery/Curation/Merge.antt =====
-- merge_identities of src/store/identity.cpp.
use hvax.Prelude.{
  ℕ, suc, ◌<◌, ◌≡◌, refl, subst, Option, none, some, ◌>>=◌, List, [], ◌∷◌, if◌then◌else◌, arith,
  count, All, ℤ, sort, unique,
}
use hvax.Prelude.Sort.Laws.{IsRising, unique-IsRising, count-unique}
use hvax.Floats.{Floats}
use hvax.Hnsw.{Usearch}
use hvax.Gallery.Invariant.{G, IsConsistent, IsConsistentBarring}
use hvax.Gallery.Identities.Recompute.{recompute-IsConsistent, faces-recompute}
use hvax.Gallery.Images.Keep.{All-of_count}
use hvax.Gallery.Curation.{
  live_identity, pin, absorb_all, live_rows, merge_rows, merge_found, merge_identities,
}
use hvax.Gallery.Curation.Slots.{pin-IsConsistent, live_identity_lem}
use hvax.Gallery.Curation.Groups.{joins, absorb_all-Absorbed}

abbrev Below : ℕ → Option (List ℕ) → Type 0
Below n none = Unit
Below n (some rows) = All (λ j. j < n) rows

count_of_All : (n : ℕ) (rows : List ℕ) (r : ℕ) → All (λ j. j < n) rows → 0 < count r rows → r < n
count_of_All n [] r a h = ground (arith, h)
count_of_All n (x ∷ rows) r a h = ground (arith, a.0, count_of_All n rows r a.1, h)

unique-below :
    (n : ℕ) (rows : List ℕ) → All (λ j. j < n) rows → All (λ j. j < n) (unique (sort rows))
unique-below n rows a =
    All-of_count n (unique (sort rows))
      λ r h. count_of_All n rows r a (ground (arith, count-unique r rows, h))

cons-Below :
    (n : ℕ) (o : Option ℕ) (os : Option (List ℕ))
    → ((id : ℕ) → o ≡ some id → id < n)
    → Below n os
    → Below n (o >>= λ row. os >>= λ rows. some (row ∷ rows))
cons-Below n none os h b = tt
cons-Below n (some id) none h b = tt
cons-Below n (some id) (some rows) h b = (h id refl, b)

module _ (fl : Floats) (us : Usearch fl.Float) where
  live_rows-Below : (g : G fl us) (ids : List ℤ) → Below g.identities.size (live_rows fl us g ids)
  unfolding live_rows
  live_rows-Below g [] = tt
  live_rows-Below g (id ∷ ids) =
      cons-Below g.identities.size (live_identity fl us g id) (live_rows fl us g ids)
        (λ j e. (live_identity_lem fl us g id j e).0) (live_rows-Below g ids)

  barring : {g : G fl us} (target : ℕ) → IsConsistent fl us g → IsConsistentBarring fl us target g
  barring target c = record {
    aligned = c.aligned;
    membership = c.membership;
    counted = λ j h n. c.counted j h;
    mirrored = c.mirrored;
    faces = c.faces;
  }

  merge_rows-IsConsistent :
      (g : G fl us) (ids : List ℕ) (now : ℕ)
      → IsConsistent fl us g
      → All (λ j. j < g.identities.size) ids
      → IsRising ids
      → IsConsistent fl us (merge_rows fl us g ids now).1
  unfolding merge_rows
  merge_rows-IsConsistent g [] now c below rising = c
  merge_rows-IsConsistent g (target ∷ []) now c below rising = c
  merge_rows-IsConsistent g (target ∷ src ∷ srcs) now c below rising =
      let u =
        (absorb_all-Absorbed fl us g target (src ∷ srcs) now (barring target c) below.0 below.1
          rising).state in
      pin-IsConsistent fl us _ target (
        recompute-IsConsistent fl us (absorb_all fl us g target (src ∷ srcs) now) target now
          u.aligned u.membership u.counted u.mirrored u.faces)

  -- Merging identities, whatever the ids, keeps the gallery consistent.
  pub merge_identities-IsConsistent :
      (g : G fl us) (ids : List ℤ) (now : ℕ)
      → IsConsistent fl us g
      → IsConsistent fl us (merge_identities fl us g ids now).1
  unfolding merge_identities
  merge_identities-IsConsistent g ids now c = go (live_rows fl us g ids) (live_rows-Below g ids)
    where
      go :
          (o : Option (List ℕ))
          → Below g.identities.size o
          → IsConsistent fl us (merge_found fl us g o now).1
      go none b = unfold merge_found in c
      go (some rows) b =
          unfold merge_found in
          merge_rows-IsConsistent g (unique (sort rows)) now c
            (unique-below g.identities.size rows b) (unique-IsRising rows)

  -- Two or more live identities, `target` the least: a merge answers `target`, each face of the
  -- others refers to `target` after it, and every other face to what it referred to.
  pub merge_identities_lem :
      (g : G fl us) (ids : List ℤ) (now : ℕ) (rows : List ℕ) (target src : ℕ) (srcs : List ℕ)
      → IsConsistent fl us g
      → live_rows fl us g ids ≡ some rows
      → unique (sort rows) ≡ target ∷ src ∷ srcs
      → let r = merge_identities fl us g ids now in
        (r.0 ≡ some target)
        × ((j : ℕ)
            → j < g.faces.size
            → (r.1.faces.at j).identity_ref ≡ (
                if joins (src ∷ srcs) (g.faces.at j).identity_ref
                then suc target
                else (g.faces.at j).identity_ref))
  unfolding merge_identities merge_found merge_rows pin
  merge_identities_lem g ids now rows target src srcs c live ids_eq =
      let below : All (λ j. j < g.identities.size) (target ∷ src ∷ srcs) =
        subst (All (λ j. j < g.identities.size)) ids_eq (
          unique-below g.identities.size rows
            (subst (Below g.identities.size) live (live_rows-Below g ids))) in
      let rising : IsRising (target ∷ src ∷ srcs) = subst IsRising ids_eq (unique-IsRising rows) in
      let a =
        absorb_all-Absorbed fl us g target (src ∷ srcs) now (barring target c) below.0 below.1
          rising in
      rw (live, ids_eq)
        (
          refl,
          λ j h.
              rw (faces-recompute fl us (absorb_all fl us g target (src ∷ srcs) now) target now)
                (a.refs j h),
        )

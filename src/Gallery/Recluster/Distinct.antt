-- ===== src/Gallery/Recluster/Distinct.antt =====
-- recluster of src/store/identity.cpp: no two clusters share an identity that is not pinned.
use hvax.Prelude.{
  ℕ, zero, suc, ◌≤◌, ◌<◌, ◌≡◌, ◌≢◌, ◌⊎◌, refl, false, ◌&&◌, ◌||◌, List, [], ◌∷◌, ◌==◌, filled,
  count, sort, unique, sort_by, All, arith, Bool-cases, inl, inr,
}
use hvax.Prelude.SortBy.Keep.{count-sort_by}
use hvax.Prelude.Sort.Laws.{count-unique}
use hvax.Gallery.Recluster.{Snapshot}
use hvax.Gallery.Recluster.Merge.{rows_of, pinned_ref}
use hvax.Gallery.Recluster.Sound.{rows_of-All}
use hvax.Gallery.Recluster.Stable.{
  refs_among, best_ref, larger_first, iota, Claims, claim_pinned, claim, claim_next, claim_others,
  cluster_refs,
}
use hvax.Gallery.Recluster.Claims.{
  best_ref_lem, refs_among_lem, count-iota, IsClaims, claim-IsClaims, IsPinnedClaims,
  IsPinnedClaims-IsClaims, claim_pinned-IsPinnedClaims,
}

module _ (s : Snapshot) (identities : ℕ) (tagged : List (ℕ × ℕ)) where
  abbrev Bounded : Type 0
  Bounded = All (λ x. s.refs x.0 ≤ identities) tagged

  best_of_lem :
      Bounded
      → (st : Claims) (f : ℕ) → IsClaims s identities tagged st
      → let refs = refs_among s (rows_of f tagged) in
        (best_ref st.claimed refs 0 0 (unique (sort refs)) ≤ identities)
        × (count (best_ref st.claimed refs 0 0 (unique (sort refs))) st.claimed ≡ 0)
  best_of_lem b st f c =
      let refs = refs_among s (rows_of f tagged) in
      best_ref_lem st.claimed refs 0 0 (unique (sort refs)) identities (omega arith)
        (ground (arith, c.old 0))
        (λ x h.
          refs_among_lem s identities (rows_of f tagged)
            (rows_of-All (λ r. s.refs r ≤ identities) f tagged b) x
            (ground (arith, h, count-unique x refs)))

  fid-claim :
      (st : Claims) (f best : ℕ)
      → 0 < st.next_ref
      → (f' : ℕ) → (0 < st.fid.at f') ⊎ (f' ≡ f)
      → 0 < (claim st f best).fid.at f'
  unfolding claim
  fid-claim st f zero h f' (inl k) = ground (arith, h, k)
  fid-claim st f zero h f' (inr k) = ground (arith, h, k)
  fid-claim st f (suc id) h f' (inl k) = ground (arith, k)
  fid-claim st f (suc id) h f' (inr k) = ground (arith, k)

  -- The cluster gets a reference, if it has none, and no cluster loses its own.
  claim_next-IsClaims :
      Bounded
      → (st : Claims) (f : ℕ) → IsClaims s identities tagged st
      → IsClaims s identities tagged (claim_next s tagged f st)
        × ((f' : ℕ) → (0 < st.fid.at f') ⊎ (f' ≡ f) → 0 < (claim_next s tagged f st).fid.at f')
  unfolding claim_next
  claim_next-IsClaims b st f c = elim (Bool-cases (st.fid.at f == 0)) [
    | inl free ↦
        let refs = refs_among s (rows_of f tagged) in
        let best = best_of_lem b st f c in
        rw free (
          claim-IsClaims s identities tagged st f
              (best_ref st.claimed refs 0 0 (unique (sort refs))) c (ground (arith, free)) best.0
              best.1,
          fid-claim st f (best_ref st.claimed refs 0 0 (unique (sort refs)))
              (omega (arith, c.next)),
        )
    | inr taken ↦
        rw taken (c, λ f' h. elim h [ inl k ↦ k | inr same ↦ ground (arith, taken, same) ])
  ]

  claim_others-IsClaims :
      Bounded
      → (order : List ℕ) (st : Claims) → IsClaims s identities tagged st
      → IsClaims s identities tagged (claim_others s tagged order st)
        × ((f : ℕ)
            → (0 < st.fid.at f) ⊎ (0 < count f order)
            → 0 < (claim_others s tagged order st).fid.at f)
  unfolding claim_others
  claim_others-IsClaims b [] st c = (c, λ f h. elim h [ inl k ↦ k | inr k ↦ ground (arith, k) ])
  claim_others-IsClaims b (x ∷ order) st c =
      let next = claim_next-IsClaims b st x c in
      let rest = claim_others-IsClaims b order (claim_next s tagged x st) next.0 in
      (
        rest.0,
        λ f h. rest.1 f (elim h [
          | inl k ↦ inl (next.1 f (inl k))
          | inr k ↦ elim (Bool-cases (x == f)) [
            | inl same ↦ inl (next.1 f (inr (ground (arith, same))))
            | inr other ↦ inr (ground (arith, other, k))
          ]
        ]),
      )

  -- Where the snapshot has the identities of the gallery, each cluster gets a reference, and two get
  -- the same only if both have a row of a pinned identity.
  pub cluster_refs_lem :
      s.pinned_identity.size ≤ identities
      → All (λ x. s.refs x.0 ≤ identities) tagged
      → (clusters f f' : ℕ) → f ≢ f'
      → f < clusters
      → let fid = cluster_refs s identities tagged clusters in
        (0 < fid.at f)
        × ((fid.at f == fid.at f'
              && (pinned_ref s 0 (rows_of f tagged) == 0
                  || pinned_ref s 0 (rows_of f' tagged) == 0))
            ≡ false)
  unfolding cluster_refs
  cluster_refs_lem small b clusters f f' ne h =
      let order = sort_by (larger_first tagged) (iota 0 clusters) in
      let st : Claims = record {
        fid = filled clusters 0;
        claimed = [];
        next_ref = suc identities;
      } in
      let st' = claim_pinned s tagged order st in
      let start : IsPinnedClaims s identities tagged st = record {
        same = λ f n. absurd (n refl);
        old = λ x h. ground (arith, h);
        next = omega arith;
      } in
      let pinned_claims = claim_pinned-IsPinnedClaims s identities tagged small order st start in
      let out =
        claim_others-IsClaims b order st'
          (IsPinnedClaims-IsClaims s identities tagged st' pinned_claims) in
      let got = out.1 f (
        inr (
          ground (
            arith,
            h,
            count-sort_by (larger_first tagged) f (iota 0 clusters),
            count-iota 0 clusters f,
          ))) in
      (got, ground (arith, got, out.0.apart f f' ne))

-- ===== src/Gallery/Recluster/Tests.antt =====
-- A run of batch clustering over the small gallery.
use hvax.Prelude.{
  ℕ, pos, ◌<◌, ◌≡◌, true, false, ◌&&◌, ◌||◌, ◌==◌, List, [], ◌∷◌, filled, arith, if◌then◌else◌,
}
use hvax.Gallery.Recluster.{ClusterParams, Snapshot}
use hvax.Gallery.Recluster.Merge.{rows_of, pinned_ref}
use hvax.Gallery.Recluster.Distinct.{cluster_refs_lem}
use hvax.Gallery.Recluster.Stable.{cluster_refs}

abbrev wide : ClusterParams ℕ
wide = record { neighbors = pos 4; edge = 40; merge = 60; max_iters = pos 20; min_size = 2 }

-- Rows 0 and 1 in cluster 0, row 2 in cluster 1; they refer to identity 0, which is
-- pinned, and to identity 1.
abbrev taken : Snapshot
taken = record {
  n = 3;
  flags = filled 3 0;
  refs = λ r. if r == 2 then 2 else 1;
  pinned_identity = filled 1 true;
}

abbrev two_clusters : List (ℕ × ℕ)
two_clusters = (0, 0) ∷ (1, 0) ∷ (2, 1) ∷ []

cluster_refs_lem_example :
    let fid = cluster_refs taken 2 two_clusters 2 in
    (0 < fid.at 0)
    × ((fid.at 0 == fid.at 1
          && (pinned_ref taken 0 (rows_of 0 two_clusters) == 0
              || pinned_ref taken 0 (rows_of 1 two_clusters) == 0))
        ≡ false)
cluster_refs_lem_example =
    cluster_refs_lem taken 2 two_clusters (omega arith)
      (omega arith, (omega arith, (omega arith, tt))) 2 0 1 (λ e. ground (arith, e)) (omega arith)

-- ===== src/Gallery/Recluster/Merge.antt =====
-- recluster of src/store/identity.cpp: near clusters are merged, but no two that carry different
-- pinned identities.
use hvax.Prelude.{
  ℕ, zero, suc, ◌+◌, ◌-◌, ◌^◌, not, ◌&&◌, ◌||◌, List, [], ◌∷◌, ◌++◌, ltb, leb, ◌==◌, if◌then◌else◌,
  min, max, Table, put, filled, length, sort_by,
}
use hvax.Floats.{Floats}
use hvax.Hnsw.{Usearch, rebuild_from}
use hvax.Vectors.{zeros, l2_normalize}
use hvax.Cluster.{singletons, find, unite}
use hvax.Gallery.Recluster.{ClusterParams, Snapshot, is_pinned, search_many_row}

-- The rows of a cluster; `tagged` has the eligible rows with their clusters, in order.
unfoldable pub rows_of : ℕ → List (ℕ × ℕ) → List ℕ
rows_of c [] = []
rows_of c (x ∷ tagged) = let rest = rows_of c tagged in if x.1 == c then x.0 ∷ rest else rest

-- The last reference of the rows that names a pinned identity, 0 if there is none.
unfoldable pub pinned_ref : Snapshot → ℕ → List ℕ → ℕ
pinned_ref s ref [] = ref
pinned_ref s ref (r ∷ rows) = pinned_ref s (if is_pinned s (s.refs r) then s.refs r else ref) rows

pub record ClusterPair (F : Type 0) : Type 0 where
  pub a : ℕ
  pub b : ℕ
  pub s : F

pub record MergeState : Type 0 where
  pub parents : Table ℕ
  pub root_pinned : Table ℕ

-- With the roots of the two clusters.
unfoldable pub merge_roots : MergeState → Table ℕ → ℕ → ℕ → MergeState
merge_roots st parents ra rb =
    let pa = st.root_pinned.at ra in
    let pb = st.root_pinned.at rb in
    let (united, _) = unite parents ra rb in
    let (found, r) = find united ra in
    if ra == rb || not (pa == 0) && (not (pb == 0) && not (pa == pb))
    then record st { parents = parents }
    else record { parents = found; root_pinned = put st.root_pinned r (max pa pb) }

unfoldable pub merge_pairs : {F : Type 0} → MergeState → List (ClusterPair F) → MergeState
unfolding merge_roots
merge_pairs st [] = st
merge_pairs st (p ∷ pairs) =
    let (p₁, ra) = find st.parents p.a in
    let (p₂, rb) = find p₁ p.b in merge_pairs (merge_roots st p₂ ra rb) pairs

-- The roots of the clusters c, c + 1, … below c + left.
unfoldable pub roots_from : Table ℕ → ℕ → ℕ → Table ℕ → Table ℕ
roots_from parents c zero roots = roots
roots_from parents c (suc left) roots =
    let (parents', r) = find parents c in roots_from parents' (c + 1) left (put roots c r)

module _ (fl : Floats) (us : Usearch fl.Float) where
  open fl use {Float, add, lt}
  open us use {Index}

  unfoldable pub add_components : List Float → List Float → List Float
  add_components (a ∷ acc) (x ∷ xs) = add a x ∷ add_components acc xs
  add_components acc _ = acc

  unfoldable pub sum_of : Table (List Float) → List Float → List ℕ → List Float
  unfolding add_components
  sum_of embs acc [] = acc
  sum_of embs acc (r ∷ rows) = sum_of embs (add_components acc (embs.at r)) rows

  unfoldable pub centroid_of : Table (List Float) → List (ℕ × ℕ) → ℕ → List Float
  unfolding sum_of
  centroid_of embs tagged c = l2_normalize fl (sum_of embs (zeros fl) (rows_of c tagged))

  -- The clusters c, c + 1, … below c + left that can become identities.
  unfoldable pub candidates_from : Snapshot → ℕ → List (ℕ × ℕ) → ℕ → ℕ → List ℕ
  candidates_from s min_size tagged c zero = []
  candidates_from s min_size tagged c (suc left) =
      let rest = candidates_from s min_size tagged (c + 1) left in
      let rows = rows_of c tagged in
      if leb min_size (length rows) || not (pinned_ref s 0 rows == 0) then c ∷ rest else rest

  unfoldable pub cell_of : List ℕ → ℕ → ℕ
  cell_of [] i = 0
  cell_of (c ∷ cand) zero = c
  cell_of (c ∷ cand) (suc i) = cell_of cand i

  unfoldable pub pairs_found : Float → List ℕ → ℕ → List (ℕ × Float) → List (ClusterPair Float)
  unfolding cell_of
  pairs_found merge cand c [] = []
  pairs_found merge cand c (x ∷ found) =
      let rest = pairs_found merge cand c found in
      let oc = cell_of cand x.0 in
      if x.0 == 2 ^ 64 - 1 || (leb (length cand) x.0 || (oc == c || lt x.1 merge))
      then rest
      else record { a = min c oc; b = max c oc; s = x.1 } ∷ rest

  unfoldable pub pairs_among :
      Float → Index → (ℕ → List Float) → List ℕ → List ℕ → List (ClusterPair Float)
  unfolding pairs_found
  pairs_among merge index cent cand [] = []
  pairs_among merge index cent cand (c ∷ cs) =
      pairs_found merge cand c (search_many_row fl us index (cent c) (min 11 (length cand)))
      ++ pairs_among merge index cent cand cs

  -- All rows of the temporary index are live.
  unfoldable pub near_pairs : Float → (ℕ → List Float) → List ℕ → List (ClusterPair Float)
  unfolding pairs_among cell_of
  near_pairs merge cent cand =
      let rows : Table (List Float) = record {
        size = length cand;
        at = λ i. cent (cell_of cand i);
      } in
      let index = rebuild_from fl us rows (length cand) (filled (length cand) 0) in
      if ltb (length cand) 2 then [] else pairs_among merge index cent cand cand

  -- The cluster of each eligible row after the merge, by the clusters before.
  unfoldable pub merged_roots :
      Table (List Float) → Snapshot → ClusterParams Float → List (ℕ × ℕ) → ℕ → Table ℕ
  unfolding centroid_of candidates_from near_pairs merge_pairs roots_from rows_of pinned_ref
  merged_roots embs s params tagged clusters =
      let cand = candidates_from s params.min_size tagged 0 clusters in
      let pairs =
        sort_by (λ (x y : ClusterPair Float). lt y.s x.s)
          (near_pairs params.merge (centroid_of embs tagged) cand) in
      let st : MergeState = record {
        parents = singletons clusters;
        root_pinned = record { size = clusters; at = λ c. pinned_ref s 0 (rows_of c tagged) };
      } in
      roots_from (merge_pairs st pairs).parents 0 clusters (filled clusters 0)

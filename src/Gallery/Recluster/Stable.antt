-- ===== src/Gallery/Recluster/Stable.antt =====
-- recluster of src/store/identity.cpp: the clusters get their identities, and the rows their labels.
use hvax.Prelude.{
  ℕ, zero, suc, ◌+◌, Bool, not, ◌&&◌, ◌||◌, List, [], ◌∷◌, map, ltb, ◌==◌, if◌then◌else◌, Table,
  put, filled, ℤ, pos, negsuc, length, count, sort, unique, sort_by,
}
use hvax.Floats.{Floats}
use hvax.Hnsw.{Usearch}
use hvax.Gallery.State.{Gallery}
use hvax.Gallery.Recluster.{
  ClusterParams, Snapshot, rows_from, compact_labels, snapshot, propagated,
}
use hvax.Gallery.Recluster.Merge.{rows_of, pinned_ref, merged_roots}
use hvax.Gallery.Labels.{apply_labels}

-- The references of the rows, less those to no identity.
unfoldable pub refs_among : Snapshot → List ℕ → List ℕ
refs_among s [] = []
refs_among s (r ∷ rows) =
    let rest = refs_among s rows in if s.refs r == 0 then rest else s.refs r ∷ rest

-- The reference that most of the rows have and no cluster claimed, the least of such, 0 for none.
unfoldable pub best_ref : List ℕ → List ℕ → ℕ → ℕ → List ℕ → ℕ
best_ref claimed refs best best_n [] = best
best_ref claimed refs best best_n (x ∷ xs) =
    let cnt = count x refs in
    let better = not (ltb 0 (count x claimed)) && (ltb best_n cnt || cnt == best_n && ltb x best) in
    best_ref claimed refs (if better then x else best) (if better then cnt else best_n) xs

unfoldable pub larger_first : List (ℕ × ℕ) → ℕ → ℕ → Bool
larger_first tagged a b =
    let x = length (rows_of a tagged) in
    let y = length (rows_of b tagged) in if x == y then ltb a b else ltb y x

-- 0, 1, … below `n`.
unfoldable pub iota : ℕ → ℕ → List ℕ
iota i zero = []
iota i (suc left) = i ∷ iota (i + 1) left

-- The references that the clusters get, the ones claimed, and the next new one.
pub record Claims : Type 0 where
  pub fid : Table ℕ
  pub claimed : List ℕ
  pub next_ref : ℕ

unfoldable pub claim_pinned : Snapshot → List (ℕ × ℕ) → List ℕ → Claims → Claims
claim_pinned s tagged [] st = st
claim_pinned s tagged (f ∷ order) st =
    let ref = pinned_ref s 0 (rows_of f tagged) in
    claim_pinned s tagged order
      (if ref == 0 then st else record st { fid = put st.fid f ref; claimed = ref ∷ st.claimed })

-- The cluster `f`, whose best reference is `best`.
unfoldable pub claim : Claims → ℕ → ℕ → Claims
claim st f zero = record st { fid = put st.fid f st.next_ref; next_ref = st.next_ref + 1 }
claim st f (suc id) = record st { fid = put st.fid f (suc id); claimed = suc id ∷ st.claimed }

unfoldable pub claim_next : Snapshot → List (ℕ × ℕ) → ℕ → Claims → Claims
unfolding refs_among best_ref claim
claim_next s tagged f st =
    let refs = refs_among s (rows_of f tagged) in
    if st.fid.at f == 0 then claim st f (best_ref st.claimed refs 0 0 (unique (sort refs))) else st

unfoldable pub claim_others : Snapshot → List (ℕ × ℕ) → List ℕ → Claims → Claims
unfolding claim_next
claim_others s tagged [] st = st
claim_others s tagged (f ∷ order) st = claim_others s tagged order (claim_next s tagged f st)

unfoldable pub label_of_ref : ℕ → ℤ
label_of_ref zero = negsuc 0
label_of_ref (suc id) = pos id

unfoldable pub label_rows : ℤ → List ℕ → Table ℤ → Table ℤ
label_rows l [] t = t
label_rows l (r ∷ rows) t = label_rows l rows (put t r l)

-- The clusters f, f + 1, … below f + left; one that is too small gets no label unless it is pinned.
unfoldable pub labels_from : Snapshot → ℕ → List (ℕ × ℕ) → Table ℕ → ℕ → ℕ → Table ℤ → Table ℤ
unfolding label_rows label_of_ref
labels_from s min_size tagged fid f zero t = t
labels_from s min_size tagged fid f (suc left) t =
    let rows = rows_of f tagged in
    labels_from s min_size tagged fid (f + 1) left (
      if pinned_ref s 0 rows == 0 && ltb (length rows) min_size
      then t
      else label_rows (label_of_ref (fid.at f)) rows t)

-- Each row with its label.
unfoldable pub tag : List ℕ → List ℕ → List (ℕ × ℕ)
tag (r ∷ rows) (l ∷ labels) = (r, l) ∷ tag rows labels
tag _ _ = []

-- The references that the final clusters get.
unfoldable pub cluster_refs : Snapshot → ℕ → List (ℕ × ℕ) → ℕ → Table ℕ
unfolding larger_first iota claim_pinned claim_others
cluster_refs s identities tagged clusters =
    let order = sort_by (larger_first tagged) (iota 0 clusters) in
    let st : Claims = record { fid = filled clusters 0; claimed = []; next_ref = suc identities } in
    (claim_others s tagged order (claim_pinned s tagged order st)).fid

-- The labels of the rows, from the final clusters.
unfoldable pub row_labels : Snapshot → ℕ → ℕ → List (ℕ × ℕ) → ℕ → Table ℤ
unfolding cluster_refs labels_from
row_labels s identities min_size tagged clusters =
    labels_from s min_size tagged (cluster_refs s identities tagged clusters) 0 clusters
      (filled s.n (negsuc 0))

module _ (fl : Floats) (us : Usearch fl.Float) where
  open fl use {Float}
  open us use {Index}

  -- The clusters of the eligible rows, and how many there are.
  unfoldable pub final_labels : Gallery Float Index → ClusterParams Float → List ℕ × ℕ
  unfolding tag
  final_labels g params =
      let s = snapshot fl us g in
      let rows = rows_from s 0 s.n in
      let (first, clusters) = compact_labels (map (propagated fl us g params).at rows) in
      let roots = merged_roots fl us g.embs s params (tag rows first) clusters in
      compact_labels (map roots.at first)

  unfoldable pub new_labels : Gallery Float Index → ClusterParams Float → Table ℤ
  unfolding final_labels tag row_labels
  new_labels g params =
      let s = snapshot fl us g in
      let (final, clusters) = final_labels g params in
      row_labels s g.identities.size params.min_size (tag (rows_from s 0 s.n) final) clusters

  unfoldable pub recluster : Gallery Float Index → ClusterParams Float → ℕ → Gallery Float Index
  unfolding new_labels
  recluster g params now = apply_labels fl us g (new_labels g params) (snapshot fl us g).n now

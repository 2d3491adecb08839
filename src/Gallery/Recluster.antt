-- ===== src/Gallery/Recluster.antt =====
-- recluster of src/store/identity.cpp on a gallery that no other call changes meanwhile: the snapshot,
-- the labels that the clustering graph gives (Cluster), and their writes (Gallery.Labels).
pub mod Merge
pub mod Stable
pub mod Sound
mod Claims
mod Distinct
mod Tests
use hvax.Prelude.{
  ℕ, zero, suc, ◌+◌, ◌-◌, ◌*◌, ◌/◌, ◌%◌, ◌^◌, Bool, true, false, not, ◌&&◌, ◌||◌, List, [], ◌∷◌,
  map, ltb, leb, ◌==◌, if◌then◌else◌, min, max, Table, ℤ, pos, negsuc, length, take, sort,
}
use hvax.Prelude.Sort.{unique_after}
use hvax.Floats.{Floats}
use hvax.Hnsw.{Usearch, to_scores}
use hvax.Types.{FaceSlot, IdentitySlot, pinned, has, slot_live, face_indexable, u32}
use hvax.Cluster.{KnnGraph, symmetrize_knn, chinese_whispers}
use hvax.Gallery.State.{Gallery}

pub record ClusterParams (F : Type 0) : Type 0 where
  pub neighbors : ℤ
  pub edge : F
  pub merge : F
  pub max_iters : ℤ
  pub min_size : ℕ

-- Under the shared lock; a reference is one more than its identity, 0 for none.
pub record Snapshot : Type 0 where
  pub n : ℕ
  pub flags : Table ℕ
  pub refs : ℕ → ℕ
  pub pinned_identity : Table Bool

-- std::max(2, neighbors)
unfoldable pub neighbor_count : ℤ → ℕ
neighbor_count (pos k) = max 2 k
neighbor_count (negsuc _) = 2

unfoldable pub is_eligible : Snapshot → ℕ → Bool
is_eligible s i = face_indexable (s.flags.at i)

-- The reference names a pinned identity.
unfoldable pub is_pinned : Snapshot → ℕ → Bool
is_pinned s zero = false
is_pinned s (suc id) = ltb id s.pinned_identity.size && s.pinned_identity.at id

-- The eligible rows among the first `n`, in order.
unfoldable pub rows_from : Snapshot → ℕ → ℕ → List ℕ
unfolding is_eligible
rows_from s i zero = []
rows_from s i (suc left) =
    let rest = rows_from s (i + 1) left in if is_eligible s i then i ∷ rest else rest

unfoldable pub first_label : Snapshot → ℕ → ℕ → ℕ
unfolding is_eligible is_pinned
first_label s i zero = u32 i
first_label s i (suc id) = if is_eligible s i && is_pinned s (suc id) then u32 (s.n + id) else u32 i

unfoldable pub is_fixed : Snapshot → ℕ → Bool
unfolding is_eligible is_pinned
is_fixed s i = not (is_eligible s i) || is_pinned s (s.refs i)

-- How many entries are at most `l`.
unfoldable pub rank : ℕ → List ℕ → ℕ
rank l [] = 0
rank l (x ∷ xs) = (if leb x l then 1 else 0) + rank l xs

-- The labels numbered by their order, and how many there are; `prev` starts at 2 ^ 32 - 1.
unfoldable pub compact_labels : List ℕ → List ℕ × ℕ
unfolding rank
compact_labels labels =
    let seen = unique_after (2 ^ 32 - 1) (sort labels) in
    (map (λ l. u32 (rank l seen + 2 ^ 32 - 1)) labels, length seen)

module _ (fl : Floats) (us : Usearch fl.Float) where
  open fl use {Float, lit, neg}
  open us use {Index}

  unfoldable pub snapshot : Gallery Float Index → Snapshot
  snapshot g = record {
    n = min g.embs.size g.faces.size;
    flags = g.flags_cache;
    refs = λ i. (g.faces.at i).identity_ref;
    pinned_identity = record {
      size = g.identities.size;
      at = λ id. slot_live (g.identities.at id).flags && has pinned (g.identities.at id).flags;
    };
  }

  -- The answers of search_many to one query, without the padding.
  unfoldable pub search_many_row : Index → List Float → ℕ → List (ℕ × Float)
  search_many_row index query k =
      if us.size index == 0
      then []
      else take (max k 1) (to_scores fl us (us.search index query (max k 1)))

  -- The neighbours of `row` among the answers, at most `k`.
  unfoldable pub neighbors_in : ℕ → ℕ → ℕ → List (ℕ × Float) → List (ℕ × Float)
  neighbors_in n row zero found = []
  neighbors_in n row (suc k) [] = []
  neighbors_in n row (suc k) (x ∷ found) =
      let skipped = neighbors_in n row (suc k) found in
      let kept = (u32 x.0, x.1) ∷ neighbors_in n row k found in
      if x.0 == 2 ^ 64 - 1 || (x.0 == row || leb n x.0) then skipped else kept

  -- Entry `j`, which is UINT32_MAX and -2 behind the end.
  unfoldable pub entry_at : List (ℕ × Float) → ℕ → ℕ × Float
  entry_at [] j = (2 ^ 32 - 1, neg (lit 2 1))
  entry_at (x ∷ xs) zero = x
  entry_at (x ∷ xs) (suc j) = entry_at xs j

  unfoldable pub neighbors_of : Gallery Float Index → Snapshot → ℕ → ℕ → List (ℕ × Float)
  unfolding search_many_row neighbors_in is_eligible
  neighbors_of g s k row =
      if is_eligible s row
      then neighbors_in s.n row k (search_many_row g.hnsw (g.embs.at row) (k + 1))
      else []

  unfoldable pub knn_graph : Gallery Float Index → Snapshot → ℕ → KnnGraph Float
  unfolding neighbors_of entry_at
  knn_graph g s k = record {
    n = s.n;
    k = k;
    nbr = record { size = s.n * k; at = λ p. (entry_at (neighbors_of g s k (p / k)) (p % k)).0 };
    sim = record { size = s.n * k; at = λ p. (entry_at (neighbors_of g s k (p / k)) (p % k)).1 };
  }

  -- The labels of all rows after the propagation.
  unfoldable pub propagated : Gallery Float Index → ClusterParams Float → Table ℕ
  unfolding snapshot knn_graph first_label is_fixed neighbor_count is_eligible
  propagated g params =
      let s = snapshot g in
      let eligible : Table Bool = record { size = s.n; at = is_eligible s } in
      (chinese_whispers fl
        (symmetrize_knn fl (knn_graph g s (neighbor_count params.neighbors)) params.edge eligible)
        (record { size = s.n; at = λ i. first_label s i (s.refs i) })
        (record { size = s.n; at = is_fixed s }) params.max_iters).0

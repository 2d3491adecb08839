-- ===== src/Hnsw.antt =====
-- src/index/hnsw_index.cpp over third_party/usearch. The library's index is a parameter, with what
-- its documentation says of which keys it holds; how near its answers are to the nearest is not
-- assumed. Each call holds the wrapper's mutex; the inserts of a rebuild are made one by one.
use hvax.Prelude.{
  ℕ, zero, suc, ◌+◌, ◌≡◌, arith, Bool, true, false, List, [], ◌∷◌, ◌==◌, if◌then◌else◌, max, Table,
}
use hvax.Floats.{Floats}
use hvax.Types.{face_indexable}

-- unum::usearch::index_dense_t
pub record Usearch (F : Type 0) : Type 1 where
  pub Index : Type 0
  pub made : Index
  pub add : Index → ℕ → List F → Index
  pub remove : Index → ℕ → Index
  pub contains : Index → ℕ → Bool
  pub size : Index → ℕ
  -- At most so many keys, each with its distance.
  pub search : Index → List F → ℕ → List (ℕ × F)
  pub contains_made : (k : ℕ) → contains made k ≡ false
  pub contains_add :
      (i : Index) (k : ℕ) (v : List F) (j : ℕ)
      → contains (add i k v) j ≡ (if j == k then true else contains i j)
  pub contains_remove :
      (i : Index) (k j : ℕ) → contains (remove i k) j ≡ (if j == k then false else contains i j)

module _ (fl : Floats) (us : Usearch fl.Float) where
  open fl use {Float}
  open us use {Index}

  pub add : Index → ℕ → List Float → Index
  add i key vec = us.add i key vec

  pub remove : Index → ℕ → Index
  remove i key = us.remove i key

  pub update : Index → ℕ → List Float → Index
  update i key vec = us.add (us.remove i key) key vec

  unfoldable pub contains : Index → ℕ → Bool
  contains i key = us.contains i key

  -- The distance is 1 - the inner product.
  pub to_scores : List (ℕ × Float) → List (ℕ × Float)
  to_scores [] = []
  to_scores ((key, dist) ∷ rest) = (key, fl.sub (fl.lit 1 1) dist) ∷ to_scores rest

  pub search : Index → List Float → ℕ → List (ℕ × Float)
  search i query k = to_scores (us.search i query (max k 1))

  -- Rows i, i + 1, … below i + left, less those whose flags meet the default mask.
  unfoldable pub rebuild_rows : Table (List Float) → Table ℕ → ℕ → ℕ → Index → Index
  rebuild_rows rows flags i zero x = x
  rebuild_rows rows flags i (suc left) x =
      rebuild_rows rows flags (i + 1) left
        (if face_indexable (flags.at i) then us.add x i (rows.at i) else x)

  unfoldable pub rebuild_from : Table (List Float) → ℕ → Table ℕ → Index
  rebuild_from rows n flags = rebuild_rows rows flags 0 n us.made

  pub contains-add :
      (i : us.Index) (k : ℕ) (v : List fl.Float) (j : ℕ)
      → contains (add i k v) j ≡ (if j == k then true else contains i j)
  unfolding contains add
  contains-add i k v j = us.contains_add i k v j

  pub contains-remove :
      (i : us.Index) (k j : ℕ) → contains (remove i k) j ≡ (if j == k then false else contains i j)
  unfolding contains remove
  contains-remove i k j = us.contains_remove i k j

  pub contains-update :
      (i : Index) (k : ℕ) (v : List Float) (j : ℕ)
      → contains (update i k v) j ≡ (if j == k then true else contains i j)
  unfolding contains update
  contains-update i k v j =
      ground (arith, us.contains_add (us.remove i k) k v j, us.contains_remove i k j)

-- ===== src/Gallery/Recluster/Sound.antt =====
-- recluster of src/store/identity.cpp keeps a gallery sound, since it labels indexable faces only.
use hvax.Prelude.{ℕ, ◌≡◌, true, List, [], ◌∷◌, ◌==◌, min, Table, ℤ, pos, All, Bool-cases, inl, inr}
use hvax.Floats.{Floats}
use hvax.Hnsw.{Usearch}
use hvax.Gallery.Invariant.{G}
use hvax.Gallery.Labels.Keep.{Labels}
use hvax.Gallery.Recluster.{Snapshot, is_eligible}
use hvax.Gallery.Recluster.Merge.{rows_of}

-- What holds of all rows holds of those of a cluster.
pub rows_of-All :
    (P : ℕ → Type 0) (c : ℕ) (tagged : List (ℕ × ℕ))
    → All (λ x. P x.0) tagged
    → All P (rows_of c tagged)
unfolding rows_of
rows_of-All P c [] a = tt
rows_of-All P c (x ∷ tagged) a = elim (Bool-cases (x.1 == c)) [
  | inl same ↦ rw same (a.0, rows_of-All P c tagged a.1)
  | inr other ↦ rw other (rows_of-All P c tagged a.1)
]

module _ (s : Snapshot) where
  abbrev Eligible : ℕ → Type 0
  Eligible r = is_eligible s r ≡ true

  -- Only eligible rows have a label.
  abbrev Selective : Table ℤ → Type 0
  Selective t = (r l : ℕ) → t.at r ≡ pos l → Eligible r

module _ (fl : Floats) (us : Usearch fl.Float) where
  -- The rows of the snapshot.
  abbrev row_count : G fl us → ℕ
  row_count g = min g.embs.size g.faces.size

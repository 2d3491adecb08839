-- ===== src/Gallery/Impostor/Endless.antt =====
-- The loop of impostor_eval of src/store/identity.cpp on a gallery whose faces are on one image.
use hvax.Prelude.{
  ℕ, zero, suc, ◌+◌, ◌≤◌, ◌<◌, ◌≡◌, sym, ◌∙◌, true, none, List, [], min, max, Table, length, arith,
  Bool-cases, inl, inr,
}
use hvax.Floats.{Floats}
use hvax.Hnsw.{Usearch}
use hvax.Types.{FaceSlot, face_indexable}
use hvax.Gallery.Invariant.{G}
use hvax.Gallery.Impostor.{pool_below, redrawn, draw, random_pairs}

-- A row of the pool is an indexable one.
pool_below_lem :
    {F : Type 0} (faces : Table (FaceSlot F)) (n i : ℕ)
    → i < (pool_below faces n).size
    → ((pool_below faces n).at i < n)
      × (face_indexable (faces.at ((pool_below faces n).at i)).flags ≡ true)
unfolding pool_below
pool_below_lem faces zero i h = ground (arith, h)
pool_below_lem faces (suc n) i h =
    let before = pool_below_lem faces n i in
    elim (Bool-cases (face_indexable (faces.at n).flags)) [
      | inl ok ↦ rw ok (ground (arith, h, ok, before), ground (arith, h, ok, before))
      | inr gone ↦ rw gone (ground (arith, h, gone, before), ground (arith, h, gone, before))
    ]

module _ (fl : Floats) (us : Usearch fl.Float) (g : G fl us) where
  abbrev pub rows : ℕ
  rows = min g.embs.size g.faces.size

  abbrev pub pool : Table ℕ
  pool = pool_below g.faces rows

  redrawn_lem :
      (a b : ℕ)
      → (g.faces.at a).image_id ≡ (g.faces.at b).image_id
      → redrawn fl us g.faces a b ≡ true
  unfolding redrawn
  redrawn_lem a b e = ground (arith, e)

  draw-endless :
      (pick : ℕ → ℕ) (want fuel i : ℕ)
      → ((i : ℕ) → redrawn fl us g.faces (pool.at (pick i)) (pool.at (pick (i + 1))) ≡ true)
      → 0 < want
      → draw fl us g pool pick want fuel i [] ≡ none
  unfolding draw
  draw-endless pick want zero i r h = ground (arith, h)
  draw-endless pick want (suc fuel) i r h =
      ground (arith, h, r i, draw-endless pick want fuel (i + 2) r h)

  -- Where two or more faces are indexable, all of them on one image, and a pair is wanted, the loop
  -- runs on, whatever is drawn and however many rounds it is given.
  pub random_pairs-endless :
      (max_pairs : ℕ) (same : List fl.Float) (pick : ℕ → ℕ) (fuel img : ℕ)
      → 2 ≤ pool.size
      → 0 < max_pairs
      → ((i : ℕ) → pick i < pool.size)
      → ((r : ℕ)
          → r < rows
          → face_indexable (g.faces.at r).flags ≡ true
          → (g.faces.at r).image_id ≡ img)
      → random_pairs fl us g max_pairs same pick fuel ≡ none
  unfolding random_pairs
  random_pairs-endless max_pairs same pick fuel img two some_ inside one = ground (
    arith,
    two,
    draw-endless pick (max (length same) (min max_pairs 200000)) fuel 0 again
        (omega (arith, some_)),
  )
    where
      image : (i : ℕ) → (g.faces.at (pool.at (pick i))).image_id ≡ img
      image i =
          let p = pool_below_lem g.faces rows (pick i) (inside i) in one (pool.at (pick i)) p.0 p.1

      again : (i : ℕ) → redrawn fl us g.faces (pool.at (pick i)) (pool.at (pick (i + 1))) ≡ true
      again i =
          redrawn_lem (pool.at (pick i)) (pool.at (pick (i + 1))) (image i ∙ sym (image (i + 1)))

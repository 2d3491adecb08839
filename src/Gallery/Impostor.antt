-- ===== src/Gallery/Impostor.antt =====
-- impostor_eval of src/store/identity.cpp: the loop that draws random pairs of faces. The draws of the
-- generator are a parameter, and the rounds of the loop are counted by fuel.
mod Endless
mod Tests
use hvax.Prelude.{
  ℕ, zero, suc, ◌+◌, Bool, ◌||◌, Option, none, some, List, [], ◌∷◌, ◌++◌, ltb, ◌==◌, if◌then◌else◌,
  min, max, Table, push, filled, length,
}
use hvax.Floats.{Floats}
use hvax.Hnsw.{Usearch}
use hvax.Vectors.{dot512}
use hvax.Types.{FaceSlot, face_indexable}
use hvax.Gallery.State.{Gallery}

-- The indexable rows below `n`.
unfoldable pub pool_below : {F : Type 0} → Table (FaceSlot F) → ℕ → Table ℕ
pool_below faces zero = filled 0 0
pool_below faces (suc i) =
    let before = pool_below faces i in
    if face_indexable (faces.at i).flags then push before i else before

module _ (fl : Floats) (us : Usearch fl.Float) where
  open fl use {Float}
  open us use {Index}

  -- The pair is drawn again.
  unfoldable pub redrawn : {F : Type 0} → Table (FaceSlot F) → ℕ → ℕ → Bool
  redrawn faces a b = a == b || (faces.at a).image_id == (faces.at b).image_id

  -- The scores of the pairs, the draws i, i + 1 being the next two; `none` while the loop still runs.
  unfoldable pub draw :
      Gallery Float Index → Table ℕ → (ℕ → ℕ) → ℕ → ℕ → ℕ → List Float → Option (List Float)
  unfolding redrawn
  draw g pool pick want zero i rnd = if ltb (length rnd) want then none else some rnd
  draw g pool pick want (suc fuel) i rnd =
      let a = pool.at (pick i) in
      let b = pool.at (pick (i + 1)) in
      let again = draw g pool pick want fuel (i + 2) rnd in
      let taken =
        draw g pool pick want fuel (i + 2) (rnd ++ (dot512 fl (g.embs.at a) (g.embs.at b) ∷ [])) in
      if ltb (length rnd) want then (if redrawn g.faces a b then again else taken) else some rnd

  -- `same` has the scores of the pairs on one image.
  unfoldable pub random_pairs :
      Gallery Float Index → ℕ → List Float → (ℕ → ℕ) → ℕ → Option (List Float)
  unfolding pool_below draw
  random_pairs g max_pairs same pick fuel =
      let pool = pool_below g.faces (min g.embs.size g.faces.size) in
      let drawn = draw g pool pick (max (length same) (min max_pairs 200000)) fuel 0 [] in
      if ltb pool.size 2 then some [] else drawn

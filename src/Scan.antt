-- ===== src/Scan.antt =====
-- The exact scan of src/index/exact_scan.cpp. A priority queue is the list of its entries, the least
-- score first; among entries with the same score the one pushed last is popped first, which the
-- source leaves open.
pub mod Sound
pub mod Best
mod Tests
use hvax.Prelude.{
  ℕ, zero, suc, ◌+◌, Bool, true, false, not, ◌&&◌, ◌||◌, List, [], ◌∷◌, ◌++◌, ltb, ◌==◌,
  if◌then◌else◌, length, Table, ℤ,
}
use hvax.Floats.{Floats}
use hvax.Vectors.{dot512, dot512_i8, i8_dot_to_score}
use hvax.Types.{tombstone, low_quality, has}

-- flags & skip, for the mask kTombstone, or kTombstone | kLowQuality.
unfoldable pub masked : Bool → ℕ → Bool
masked low flags = has tombstone flags || (low && has low_quality flags)

-- The test of a row's flags; an empty table stands for the null pointer.
unfoldable pub flagged : Table ℕ → Bool → ℕ → Bool
unfolding masked
flagged flags low i = if flags.size == 0 then false else masked low (flags.at i)

module _ (fl : Floats) where
  open fl use {Float, lt}

  pub record ScanHit : Type 0 where
    pub row : ℕ
    pub score : Float

  -- heap.push
  unfoldable pub push_hit : ScanHit → List ScanHit → List ScanHit
  push_hit x [] = x ∷ []
  push_hit x (y ∷ ys) =
      let rest = push_hit x ys in if lt y.score x.score then y ∷ rest else x ∷ y ∷ ys

  -- The entry is pushed in the place of the least one, if it beats it.
  unfoldable pub replace_top : ScanHit → List ScanHit → List ScanHit
  unfolding push_hit
  replace_top x [] = []
  replace_top x (t ∷ heap) = if lt t.score x.score then push_hit x heap else t ∷ heap

  -- The loop body of topk_generic for row `i`.
  unfoldable pub offer : ℕ → (ℕ → Bool) → Float → (ℕ → Float) → ℕ → List ScanHit → List ScanHit
  unfolding push_hit replace_top
  offer k skipped min_score score_of i heap =
      let s = score_of i in
      let x : ScanHit = record { row = i; score = s } in
      if skipped i || lt s min_score
      then heap
      else (if ltb (length heap) k then push_hit x heap else replace_top x heap)

  -- The loop over the rows below `n`.
  unfoldable pub scan : ℕ → (ℕ → Bool) → Float → (ℕ → Float) → ℕ → List ScanHit
  unfolding offer
  scan k skipped min_score score_of zero = []
  scan k skipped min_score score_of (suc n) =
      offer k skipped min_score score_of n (scan k skipped min_score score_of n)

  -- std::sort by falling score.
  unfoldable pub insert_hit : ScanHit → List ScanHit → List ScanHit
  insert_hit x [] = x ∷ []
  insert_hit x (y ∷ ys) =
      let rest = insert_hit x ys in if lt x.score y.score then y ∷ rest else x ∷ y ∷ ys

  unfoldable pub sort_hits : List ScanHit → List ScanHit
  unfolding insert_hit
  sort_hits [] = []
  sort_hits (x ∷ xs) = insert_hit x (sort_hits xs)

  -- The queue emptied into a vector from its back.
  unfoldable pub emptied : List ScanHit → List ScanHit
  emptied [] = []
  emptied (x ∷ xs) = emptied xs ++ (x ∷ [])

  pub topk_generic : ℕ → ℕ → (ℕ → Bool) → Float → (ℕ → Float) → List ScanHit
  unfolding scan emptied sort_hits
  topk_generic n k skipped min_score score_of =
      if k == 0 || n == 0 then [] else sort_hits (emptied (scan k skipped min_score score_of n))

  pub exact_topk_f32 :
      Table (List Float) → ℕ → List Float → ℕ → Table ℕ → Float → Bool → List ScanHit
  exact_topk_f32 rows n query k flags min_score low =
      topk_generic n k (flagged flags low) min_score (λ i. dot512 fl query (rows.at i))

  pub exact_topk_i8 : Table (List ℤ) → ℕ → List ℤ → ℕ → Table ℕ → Float → Bool → List ScanHit
  exact_topk_i8 rows n query k flags min_score low =
      topk_generic n k (flagged flags low) min_score
        (λ i. i8_dot_to_score fl (dot512_i8 query (rows.at i)))

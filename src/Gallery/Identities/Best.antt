-- ===== src/Gallery/Identities/Best.antt =====
-- What best_row of src/store/identity.cpp answers.
use hvax.Prelude.{
  ℕ, ◌≤◌, ◌≡◌, refl, sym, subst, ◌⊎◌, inl, inr, Bool, true, false, List, [], ◌∷◌, if◌then◌else◌,
  count, arith,
}
use hvax.Floats.{Floats}
use hvax.Hnsw.{Usearch}
use hvax.Vectors.{dot512}
use hvax.Gallery.Invariant.{G}
use hvax.Gallery.Identities.{best_row}

-- Entry `r` stands in the list.
abbrev pub IsEntry : ℕ → List ℕ → Type 0
IsEntry r rows = 1 ≤ count r rows

module _ (fl : Floats) (us : Usearch fl.Float) (g : G fl us) where
  -- best_row answers what it was given, or an entry with its score.
  pub best_row_lem :
      (query : List fl.Float) (best : fl.Float) (row : ℕ) (rows : List ℕ)
      → let out = best_row fl us g.embs query best row rows in
        (out ≡ (row, best)) ⊎ (IsEntry out.0 rows × (out.1 ≡ dot512 fl query (g.embs.at out.0)))
  unfolding best_row
  best_row_lem query best row [] = inl refl
  best_row_lem query best row (r ∷ rows) =
      go better (best_row_lem query (if better then sc else best) (if better then r else row) rows)
    where
      sc : fl.Float
      sc = dot512 fl query (g.embs.at r)

      better : Bool
      better = fl.lt best sc

      out : Bool → ℕ × fl.Float
      out b = best_row fl us g.embs query (if b then sc else best) (if b then r else row) rows

      Good : ℕ × fl.Float → Type 0
      Good o =
          (o ≡ (row, best)) ⊎ (IsEntry o.0 (r ∷ rows) × (o.1 ≡ dot512 fl query (g.embs.at o.0)))

      later :
          {o : ℕ × fl.Float} → IsEntry o.0 rows × (o.1 ≡ dot512 fl query (g.embs.at o.0)) → Good o
      later p = inr (ground (arith, p.0), p.1)

      go :
          (b : Bool)
          → ((out b ≡ (if b then r else row, if b then sc else best))
              ⊎ (IsEntry (out b).0 rows × ((out b).1 ≡ dot512 fl query (g.embs.at (out b).0))))
          → Good (out b)
      go true (inl e) = subst Good (sym e) (inr (ground arith, refl))
      go false (inl e) = inl e
      go true (inr p) = later p
      go false (inr p) = later p

-- ===== src/Gallery/Search/Row.antt =====
-- What hydrate_one of src/store/gallery.cpp answers of a row.
use hvax.Prelude.{
  ℕ, zero, suc, ◌≡◌, refl, Bool, true, not, ◌&&◌, ◌||◌, Option, none, some, ltb, leb, arith,
  Bool-cases, inl, inr,
}
use hvax.Floats.{Floats}
use hvax.Hnsw.{Usearch}
use hvax.Types.{slot_live}
use hvax.Gallery.Invariant.{G}
use hvax.Gallery.Search.{Hit, hit_of, hit_on, hydrate_one, row_hidden}

module _ (fl : Floats) (us : Usearch fl.Float) (g : G fl us) where
  -- Of a hit, if there is one: its row is `row` and it has the score `score`, and the face is live.
  abbrev pub At : ℕ → fl.Float → Option (Hit fl.Float) → Type 0
  At row score none = Unit
  At row score (some h) =
      (h.row ≡ row) × (h.score ≡ score) × (slot_live (g.faces.at row).flags ≡ true)

  hit_on-At :
      (row : ℕ) (score : fl.Float) (image_id : ℕ)
      → slot_live (g.faces.at row).flags ≡ true
      → At row score (hit_on fl us g row score image_id)
  unfolding hit_on hit_of
  hit_on-At row score zero live = tt
  hit_on-At row score (suc i) live =
      elim (Bool-cases (ltb i g.images.size && slot_live (g.images.at i).flags)) [
        | inl there ↦ rw there (refl, refl, live)
        | inr missing ↦ rw missing tt
      ]

  pub hydrate_one-At :
      (row : ℕ) (score : fl.Float) (include_hidden : Bool)
      → At row score (hydrate_one fl us g row score include_hidden)
  unfolding hydrate_one
  hydrate_one-At row score include_hidden =
      elim (Bool-cases (
        leb g.faces.size row
        || not (slot_live (g.faces.at row).flags)
        || (row_hidden fl us g row && not include_hidden))) [
          | inl out ↦ rw out tt
          | inr in_ ↦ rw in_ (hit_on-At row score (g.faces.at row).image_id (ground (arith, in_)))
        ]

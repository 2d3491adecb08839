-- ===== src/Gallery/Queries/Listing.antt =====
-- What list_identities of src/store/identity.cpp lists.
use hvax.Prelude.{ℕ, ◌≡◌, Bool, true, ◌&&◌, List, ltb}
use hvax.Floats.{Floats}
use hvax.Hnsw.{Usearch}
use hvax.Gallery.Invariant.{G}
use hvax.Gallery.Queries.{identity_shown, shown_from}

module _ (fl : Floats) (us : Usearch fl.Float) (g : G fl us) where
  module _ (include_hidden : Bool) where
    -- The identity has a row and is shown.
    abbrev pub IsShownRow : ℕ → Type 0
    IsShownRow id = (ltb id g.identities.size && identity_shown fl us g include_hidden id) ≡ true

    abbrev shown_ids : List ℕ
    shown_ids = shown_from fl us g include_hidden 0 g.identities.size

-- ===== src/Gallery/Queries.antt =====
-- The queries of src/store/identity.cpp on identities. A view has what its slot has, and the slot
-- stands for it.
mod Visible
mod Listing
mod Tests
use hvax.Prelude.{
  ℕ, zero, suc, ◌+◌, ◌^◌, Bool, true, false, not, ◌&&◌, ◌||◌, Option, none, some, List, [], ◌∷◌,
  map, ltb, leb, ◌==◌, if◌then◌else◌, Table, length, ℤ, pos, negsuc, sort_by, page, ◌-◌,
}
use hvax.Floats.{Floats}
use hvax.Hnsw.{Usearch}
use hvax.Vectors.{dot512}
use hvax.Scan.{ScanHit, scan, sort_hits}
use hvax.Types.{FaceSlot, IdentitySlot, slot_live}
use hvax.Gallery.State.{Gallery}
use hvax.Gallery.Identities.{identity_live, best_row}
use hvax.Gallery.Search.{Hit, hydrate_one}

pub data IdentitySort : Type 0 where
  by_size by_recent by_id : IdentitySort

pub data FaceSort : Type 0 where
  by_score by_time : FaceSort

pub record IdentityHit (F : Type 0) : Type 0 where
  pub identity_id : ℕ
  pub score : F
  pub slot : IdentitySlot
  pub best_face : Option (Hit F)

pub record IdentityView (F : Type 0) : Type 0 where
  pub slot : IdentitySlot
  pub cohesion : F

pub record ListedFace (F : Type 0) : Type 0 where
  pub row : ℕ
  pub face : FaceSlot F
  pub hidden : Bool
  pub score : F

-- key_size and key_recent: the greater value first, the lesser id among equals.
unfoldable pub size_before : Table IdentitySlot → ℕ → ℕ → Bool
size_before identities a b =
    let x = (identities.at a).size in
    let y = (identities.at b).size in if x == y then ltb a b else ltb y x

unfoldable pub recent_before : Table IdentitySlot → ℕ → ℕ → Bool
recent_before identities a b =
    let x = (identities.at a).last_seen in
    let y = (identities.at b).last_seen in if x == y then ltb a b else ltb y x

unfoldable pub sorted_ids : Table IdentitySlot → IdentitySort → List ℕ → List ℕ
unfolding size_before recent_before
sorted_ids identities by_size ids = sort_by (size_before identities) ids
sorted_ids identities by_recent ids = sort_by (recent_before identities) ids
sorted_ids identities by_id ids = ids

module _ (fl : Floats) (us : Usearch fl.Float) where
  open fl use {Float, lit, neg, lt, le, widen, narrow, dlit, dadd, ddiv}
  open us use {Index}

  -- The identity is shown to the caller.
  unfoldable pub identity_shown : Gallery Float Index → Bool → ℕ → Bool
  identity_shown g include_hidden id =
      slot_live (g.identities.at id).flags && (include_hidden || not (g.hidden.at id))

  -- The hit of the best row, `2 ^ 32 - 1` for none.
  unfoldable pub best_face_of : Gallery Float Index → List Float → ℕ → Bool → Option (Hit Float)
  best_face_of g query id include_hidden =
      let (row, best) =
        best_row fl us g.embs query (neg (lit 2 1)) (2 ^ 32 - 1) (g.members.at id) in
      if row == 2 ^ 32 - 1 then none else hydrate_one fl us g row best include_hidden

  unfoldable pub identity_hit :
      Gallery Float Index → List Float → Bool → ScanHit fl → IdentityHit Float
  unfolding best_face_of
  identity_hit g query include_hidden it = record {
    identity_id = it.row;
    score = it.score;
    slot = g.identities.at it.row;
    best_face = best_face_of g query it.row include_hidden;
  }

  -- The k best identities; the queue and its order are those of the exact scan.
  unfoldable pub best_identities :
      Gallery Float Index → List Float → ℕ → Float → Bool → List (ScanHit fl)
  unfolding identity_shown
  best_identities g query k min_score include_hidden =
      if k == 0
      then []
      else sort_hits fl (
          scan fl k (λ id. not (identity_shown g include_hidden id)) min_score
            (λ id. dot512 fl query (g.centroid_norm.at id)) g.identities.size)

  unfoldable pub search_identities :
      Gallery Float Index → List Float → ℕ → Float → Bool → List (IdentityHit Float)
  unfolding best_identities identity_hit
  search_identities g query k min_score include_hidden =
      map (identity_hit g query include_hidden) (best_identities g query k min_score include_hidden)

  -- Σ dot512(cn, row) over the members.
  pub sum_scores : Table (List Float) → List Float → fl.Double → List ℕ → fl.Double
  sum_scores embs centroid acc [] = acc
  sum_scores embs centroid acc (r ∷ rows) =
      sum_scores embs centroid (dadd acc (widen (dot512 fl centroid (embs.at r)))) rows

  -- The mean similarity of the members to the centroid, 0 without members.
  pub cohesion_of : Gallery Float Index → ℕ → List ℕ → Float
  unfolding sum_scores
  cohesion_of g id [] = lit 0 1
  cohesion_of g id (r ∷ rows) = narrow (
      ddiv (sum_scores g.embs (g.centroid_norm.at id) (dlit 0) (r ∷ rows))
        (dlit (length (r ∷ rows))))

  unfoldable pub view_of : Gallery Float Index → ℕ → IdentityView Float
  unfolding cohesion_of
  view_of g id = record { slot = g.identities.at id; cohesion = cohesion_of g id (g.members.at id) }

  -- Gallery::identity
  unfoldable pub identity : Gallery Float Index → ℤ → Bool → Option (IdentityView Float)
  unfolding view_of
  identity g (negsuc _) include_hidden = none
  identity g (pos id) include_hidden =
      if not (identity_live fl us g (pos id)) || (not include_hidden && g.hidden.at id)
      then none
      else some (view_of g id)

  -- The ids i, i + 1, … below i + left that are shown.
  unfoldable pub shown_from : Gallery Float Index → Bool → ℕ → ℕ → List ℕ
  unfolding identity_shown
  shown_from g include_hidden i zero = []
  shown_from g include_hidden i (suc left) =
      let rest = shown_from g include_hidden (i + 1) left in
      if identity_shown g include_hidden i then i ∷ rest else rest

  unfoldable pub listed_ids : Gallery Float Index → IdentitySort → ℕ → ℕ → Bool → List ℕ
  unfolding shown_from sorted_ids
  listed_ids g order offset limit include_hidden =
      page offset limit
        (sorted_ids g.identities order (shown_from g include_hidden 0 g.identities.size))

  unfoldable pub list_identities :
      Gallery Float Index → IdentitySort → ℕ → ℕ → Bool → List (IdentityView Float)
  unfolding listed_ids view_of
  list_identities g order offset limit include_hidden =
      map (view_of g) (listed_ids g order offset limit include_hidden)

  unfoldable pub listed_face : Gallery Float Index → ℕ → ℕ → ListedFace Float
  listed_face g id r = record {
    row = r;
    face = g.faces.at r;
    hidden = g.hidden.at id;
    score = dot512 fl (g.centroid_norm.at id) (g.embs.at r);
  }

  -- a.s != b.s ? a.s > b.s : a.row < b.row
  unfoldable pub score_before : ListedFace Float → ListedFace Float → Bool
  score_before a b =
      if le a.score b.score && le b.score a.score then ltb a.row b.row else lt b.score a.score

  unfoldable pub time_before : ListedFace Float → ListedFace Float → Bool
  time_before a b =
      let x = a.face.created_at in
      let y = b.face.created_at in if x == y then ltb a.row b.row else ltb y x

  unfoldable pub sorted_faces : FaceSort → List (ListedFace Float) → List (ListedFace Float)
  unfolding score_before time_before
  sorted_faces by_score faces = sort_by score_before faces
  sorted_faces by_time faces = sort_by time_before faces

  unfoldable pub identity_faces :
      Gallery Float Index → ℤ → FaceSort → ℕ → ℕ → Bool → List (ListedFace Float)
  unfolding sorted_faces listed_face
  identity_faces g (negsuc _) order offset limit include_hidden = []
  identity_faces g (pos id) order offset limit include_hidden =
      if not (identity_live fl us g (pos id)) || (not include_hidden && g.hidden.at id)
      then []
      else page offset limit (sorted_faces order (map (listed_face g id) (g.members.at id)))

  -- Gallery::identity_centroid
  pub identity_centroid : Gallery Float Index → ℤ → Option (List Float)
  identity_centroid g (negsuc _) = none
  identity_centroid g (pos id) =
      if identity_live fl us g (pos id) then some (g.centroid_norm.at id) else none

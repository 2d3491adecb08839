-- ===== src/Gallery/Identities.antt =====
-- src/store/identity.cpp, "state": membership and statistics of identities.
pub mod Recompute
pub mod Assign
pub mod Create
pub mod Best
pub mod Loose
use hvax.Prelude.{
  ℕ, zero, suc, ◌+◌, ◌-◌, ◌^◌, Bool, true, false, ◌&&◌, Option, none, some, List, [], ◌∷◌, ◌++◌,
  map, ltb, leb, ◌==◌, if◌then◌else◌, min, max, Table, put, push, update, erase, length, replicate,
  ℤ, pos, negsuc, sort, unique,
}
use hvax.Floats.{Floats}
use hvax.Hnsw.{Usearch}
use hvax.Vectors.{dim, zeros, norm2, l2_normalize, dot512}
use hvax.Types.{FaceSlot, IdentitySlot, tombstone, set_flag, clear_flag, slot_live, u32}
use hvax.Gallery.State.{Gallery, Config}

module _ (fl : Floats) (us : Usearch fl.Float) where
  open fl use {Float, Double, lit, neg, lt, le, widen, narrow, dlit, dadd, ddiv, dlt}
  open us use {Index}

  unfoldable pub identity_live : Gallery Float Index → ℤ → Bool
  identity_live g (negsuc _) = false
  identity_live g (pos id) = ltb id g.identities.size && slot_live (g.identities.at id).flags

  -- The row of the normalised centroids that belongs to the centroid `c`.
  pub normalized : List Float → List Float
  normalized c = if dlt (dlit 0) (norm2 fl (dlit 0) c) then l2_normalize fl c else c

  -- resize(n, 0) where the table is shorter.
  pub resized : Table (List Float) → ℕ → Table (List Float)
  resized t n = record { size = max t.size n; at = λ j. if ltb j t.size then t.at j else zeros fl }

  pub refresh_centroid_norm : Table (List Float) → Table (List Float) → ℕ → Table (List Float)
  unfolding normalized resized
  refresh_centroid_norm centroids norms id =
      put (resized norms (id + 1)) id (normalized (centroids.at id))

  pub sum_components : List Double → List Float → List Double
  sum_components (a ∷ acc) (x ∷ xs) = dadd a (widen x) ∷ sum_components acc xs
  sum_components acc _ = acc

  pub sum_rows : Table (List Float) → List Double → List ℕ → List Double
  sum_rows embs acc [] = acc
  sum_rows embs acc (r ∷ rows) = sum_rows embs (sum_components acc (embs.at r)) rows

  pub mean_of : Table (List Float) → List ℕ → List Float
  unfolding sum_rows sum_components
  mean_of embs rows =
      map (λ a. narrow (ddiv a (dlit (length rows)))) (sum_rows embs (replicate dim (dlit 0)) rows)

  -- The row of the best score, the first one among equals.
  pub best_row : Table (List Float) → List Float → Float → ℕ → List ℕ → ℕ × Float
  best_row embs query best row [] = (row, best)
  best_row embs query best row (r ∷ rows) =
      let sc = dot512 fl query (embs.at r) in
      best_row embs query (if lt best sc then sc else best) (if lt best sc then r else row) rows

  pub first_seen_of : Table (FaceSlot Float) → List ℕ → ℕ
  first_seen_of faces [] = 2 ^ 64 - 1
  first_seen_of faces (r ∷ rows) = min (faces.at r).created_at (first_seen_of faces rows)

  pub last_seen_of : Table (FaceSlot Float) → List ℕ → ℕ
  last_seen_of faces [] = 0
  last_seen_of faces (r ∷ rows) = max (faces.at r).created_at (last_seen_of faces rows)

  pub images_of : Table (FaceSlot Float) → List ℕ → List ℕ
  images_of faces [] = []
  images_of faces (r ∷ rows) = (faces.at r).image_id ∷ images_of faces rows

  -- The centroid that recompute_identity_locked writes, from the member rows.
  pub new_centroid : Table (List Float) → List ℕ → List Float
  new_centroid embs [] = zeros fl
  new_centroid embs (r ∷ rows) = mean_of embs (r ∷ rows)

  -- The slot that it writes: an identity without members becomes a tombstone.
  pub new_slot :
      Table (FaceSlot Float) → Table (List Float) → ℕ → IdentitySlot → List ℕ → IdentitySlot
  new_slot faces embs now s [] = record s {
    size = 0;
    n_images = 0;
    rep_face_id = 0;
    flags = set_flag tombstone s.flags;
    updated_at = now;
  }
  new_slot faces embs now s (r ∷ rows) =
      let members = r ∷ rows in
      record s {
        size = u32 (length members);
        n_images = u32 (length (unique (sort (images_of faces members))));
        rep_face_id =
            (best_row embs (normalized (new_centroid embs members)) (neg (lit 2 1)) r members).0;
        first_seen = first_seen_of faces members;
        last_seen = last_seen_of faces members;
        updated_at = now;
        flags = clear_flag tombstone s.flags;
      }

  -- recompute_identity_locked: nothing is written for an id that has no row.
  pub recompute_identity : Gallery Float Index → ℕ → ℕ → Gallery Float Index
  recompute_identity g id now =
      let rows = g.members.at id in
      let inside = ltb id g.identities.size in
      let centroids = put g.centroids id (new_centroid g.embs rows) in
      record g {
        identities =
            if inside
            then put g.identities id (new_slot g.faces g.embs now (g.identities.at id) rows)
            else g.identities;
        centroids = if inside then centroids else g.centroids;
        centroid_norm =
            if inside then refresh_centroid_norm centroids g.centroid_norm id else g.centroid_norm;
      }

  pub new_identity : Gallery Float Index → ℕ → Gallery Float Index
  unfolding resized
  new_identity g now =
      let id = g.identities.size in
      record g {
        identities = push g.identities (record {
          identity_id = id;
          size = 0;
          n_images = 0;
          rep_face_id = 0;
          flags = 0;
          created_at = now;
          updated_at = now;
          first_seen = 0;
          last_seen = 0;
          name = [];
        });
        centroids = push g.centroids (zeros fl);
        members = push g.members [];
        hidden = push g.hidden false;
        centroid_norm = resized g.centroid_norm (id + 1);
      }

  unfoldable pub set_ref : Table (FaceSlot Float) → ℕ → ℕ → Table (FaceSlot Float)
  set_ref faces row ref = put faces row (record (faces.at row) { identity_ref = ref })

  -- `unassign_locked` of a row with the reference `ref`.
  pub unassign_from : Gallery Float Index → ℕ → ℕ → ℕ → Gallery Float Index
  unfolding set_ref
  unassign_from g row zero now = g
  unassign_from g row (suc id) now =
      let g' = record g { faces = set_ref g.faces row 0 } in
      if leb g.members.size id
      then g'
      else recompute_identity
          (record g' { members = put g.members id (erase row (g.members.at id)) }) id now

  pub unassign : Gallery Float Index → ℕ → ℕ → Gallery Float Index
  unfolding unassign_from
  unassign g row now = unassign_from g row (g.faces.at row).identity_ref now

  -- The part of assign_locked behind its early return, `touch_stats` being true in every call.
  pub join : Gallery Float Index → ℕ → ℕ → ℕ → Gallery Float Index
  unfolding set_ref
  join g row id now =
      recompute_identity
        (record g {
          faces = set_ref g.faces row (suc id);
          members = put g.members id (g.members.at id ++ (u32 row ∷ []));
        })
        id now

  pub assign : Gallery Float Index → ℕ → ℕ → ℕ → Gallery Float Index
  assign g row id now =
      if (g.faces.at row).identity_ref == suc id then g else join (unassign g row now) row id now

  -- The loop of best_identity_locked over the ids i, i + 1, … below i + left.
  pub best_loop : Gallery Float Index → List Float → ℕ → ℕ → ℤ → Float → ℤ × Float
  best_loop g query i zero best best_s = (best, best_s)
  best_loop g query i (suc left) best best_s =
      let s = dot512 fl query (g.centroid_norm.at i) in
      let better = slot_live (g.identities.at i).flags && lt best_s s in
      best_loop g query (i + 1) left (if better then pos i else best) (if better then s else best_s)

  pub best_identity : Gallery Float Index → List Float → ℤ × Float
  best_identity g query = best_loop g query 0 g.identities.size (negsuc 0) (neg (lit 2 1))

  pub join_if_near : Config Float → Gallery Float Index → ℕ → ℕ → ℤ → Float → Gallery Float Index
  join_if_near cfg g row now (negsuc _) s = g
  join_if_near cfg g row now (pos id) s = if le cfg.identity_join s then assign g row id now else g

  pub try_join_identity : Config Float → Gallery Float Index → ℕ → ℕ → Gallery Float Index
  unfolding join_if_near
  try_join_identity cfg g row now =
      let (id, s) = best_identity g (g.embs.at row) in
      if g.identities.size == 0 then g else join_if_near cfg g row now id s

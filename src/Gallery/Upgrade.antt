-- ===== src/Gallery/Upgrade.antt =====
-- Gallery::upgrade of src/store/gallery.cpp: the master of an image is replaced, and the faces that
-- it had are matched with the faces of the new picture, the most similar pairs first. Pairs with the
-- same score stand in the order of the two loops, which std::sort leaves open.
pub mod Remap
pub mod Keep
use hvax.Prelude.{
  ℕ, zero, suc, ◌+◌, Bool, true, false, not, ◌&&◌, ◌||◌, Option, none, some, List, [], ◌∷◌, ◌++◌,
  ltb, ◌==◌, if◌then◌else◌, Table, put, update, length, ℤ, pos, negsuc, sort, unique, get_elem?,
}
use hvax.Floats.{Floats}
use hvax.Hnsw.{Usearch}
use hvax.Hnsw
use hvax.Vectors.{quantize_i8, dot512}
use hvax.Types.{
  DetectedFace, FaceSlot, ImageSlot, low_quality, set_flag, clear_flag, face_indexable, u32,
}
use hvax.Gallery.State.{Gallery, Config}
use hvax.Gallery.Identities.{try_join_identity, unassign, recompute_identity}
use hvax.Gallery.Faces.{passes_gate, append_face, tombstone_face}
use hvax.Gallery.Images.{Picture, set_sha, live_row}

module _ (fl : Floats) (us : Usearch fl.Float) where
  open fl use {Float, lit, lt, le}
  open us use {Index}

  pub record Pair : Type 0 where
    pub ni : ℕ
    pub oi : ℕ
    pub s : Float

  -- The pairs of new face `ni` with the old rows from position `oi` on.
  pub pairs_of : Table (List Float) → DetectedFace Float → ℕ → ℕ → List ℕ → List Pair
  pairs_of embs f ni oi [] = []
  pairs_of embs f ni oi (row ∷ rows) =
      let rest = pairs_of embs f ni (oi + 1) rows in
      let s = dot512 fl f.embedding (embs.at row) in
      if le (lit 1 2) s then record { ni = ni; oi = oi; s = s } ∷ rest else rest

  pub all_pairs : Table (List Float) → ℕ → List (DetectedFace Float) → List ℕ → List Pair
  unfolding pairs_of
  all_pairs embs ni [] rows = []
  all_pairs embs ni (f ∷ fs) rows = pairs_of embs f ni 0 rows ++ all_pairs embs (ni + 1) fs rows

  pub insert_pair : Pair → List Pair → List Pair
  insert_pair p [] = p ∷ []
  insert_pair p (q ∷ qs) =
      let rest = insert_pair p qs in if lt p.s q.s then q ∷ rest else p ∷ q ∷ qs

  pub sort_pairs : List Pair → List Pair
  unfolding insert_pair
  sort_pairs [] = []
  sort_pairs (p ∷ ps) = insert_pair p (sort_pairs ps)

  -- What the loop over the pairs writes to row `row` before it looks at the identity.
  pub refaced : Config Float → Gallery Float Index → ℕ → DetectedFace Float → Gallery Float Index
  refaced cfg g row f =
      let fs = g.faces.at row in
      let low = clear_flag low_quality fs.flags in
      let flags = if passes_gate fl cfg f.box f.det_score then low else set_flag low_quality low in
      let was = face_indexable fs.flags in
      record g {
        faces =
            put g.faces row
              (record fs { box = f.box; det_score = f.det_score; kps = f.kps; flags = flags });
        embs = put g.embs row f.embedding;
        embs_i8 = put g.embs_i8 row (quantize_i8 fl f.embedding);
        flags_cache = put g.flags_cache row flags;
        hnsw =
            if face_indexable flags
            then (if was
                then Hnsw.update fl us g.hnsw row f.embedding
                else Hnsw.add fl us g.hnsw row f.embedding)
            else (if was then Hnsw.remove fl us g.hnsw row else g.hnsw);
      }

  -- An indexable face without an identity may join one; a face that is not leaves its own.
  pub remap_face :
      Config Float → Gallery Float Index → ℕ → DetectedFace Float → ℕ → Gallery Float Index
  unfolding refaced
  remap_face cfg g row f now =
      let g' = refaced cfg g row f in
      if face_indexable (g'.faces.at row).flags
      then (if (g'.faces.at row).identity_ref == 0
          then try_join_identity fl us cfg g' row now
          else g')
      else unassign fl us g' row now

  -- The identity that is pushed on `touched_identities`: that of an indexable face which has one.
  pub touched_by : ℕ → ℕ → List ℕ
  touched_by flags zero = []
  touched_by flags (suc id) = if face_indexable flags then id ∷ [] else []

  pub record Matching : Type 0 where
    pub gallery : Gallery Float Index
    pub new_used : ℕ → Bool
    pub old_used : ℕ → Bool
    pub touched : List ℕ

  abbrev mark : (ℕ → Bool) → ℕ → ℕ → Bool
  mark used i = update used i true

  pub match_rows :
      Config Float → Matching → Pair → Option (DetectedFace Float) → Option ℕ → ℕ → Matching
  unfolding refaced touched_by
  match_rows cfg m p (some f) (some row) now =
      let at_row = (refaced cfg m.gallery row f).faces.at row in
      record {
        gallery = remap_face cfg m.gallery row f now;
        new_used = mark m.new_used p.ni;
        old_used = mark m.old_used p.oi;
        touched = touched_by at_row.flags at_row.identity_ref ++ m.touched;
      }
  match_rows cfg m p _ _ now = m

  -- A pair counts only if neither face has been matched.
  pub match_step :
      Config Float → List (DetectedFace Float) → List ℕ → Pair → ℕ → Matching → Matching
  match_step cfg faces rows p now m =
      if m.new_used p.ni || m.old_used p.oi
      then m
      else match_rows cfg m p (get_elem? faces p.ni) (get_elem? rows p.oi) now

  pub match_pairs :
      Config Float → List (DetectedFace Float) → List ℕ → List Pair → ℕ → Matching → Matching
  match_pairs cfg faces rows [] now m = m
  match_pairs cfg faces rows (p ∷ ps) now m =
      match_pairs cfg faces rows ps now (match_step cfg faces rows p now m)

  pub append_unless :
      Config Float → Bool → Gallery Float Index → ℕ → DetectedFace Float → ℕ → Gallery Float Index
  append_unless cfg used g image_id f now =
      if used then g else append_face fl us cfg g image_id f now

  pub append_unmatched :
      Config Float
      → (ℕ → Bool)
      → Gallery Float Index
      → ℕ
      → ℕ
      → List (DetectedFace Float)
      → ℕ
      → Gallery Float Index
  append_unmatched cfg used g image_id ni [] now = g
  append_unmatched cfg used g image_id ni (f ∷ fs) now =
      append_unmatched cfg used (append_unless cfg (used ni) g image_id f now) image_id (ni + 1) fs
        now

  pub tombstone_unless : Bool → Gallery Float Index → ℕ → ℕ → Gallery Float Index
  tombstone_unless used g row now = if used then g else tombstone_face fl us g row now

  pub tombstone_unmatched : (ℕ → Bool) → Gallery Float Index → ℕ → List ℕ → ℕ → Gallery Float Index
  tombstone_unmatched used g oi [] now = g
  tombstone_unmatched used g oi (r ∷ rows) now =
      tombstone_unmatched used (tombstone_unless (used oi) g r now) (oi + 1) rows now

  pub recompute_all : Gallery Float Index → List ℕ → ℕ → Gallery Float Index
  recompute_all g [] now = g
  recompute_all g (id ∷ ids) now = recompute_all (recompute_identity fl us g id now) ids now

  -- The slot of an image that has got a new picture.
  pub mastered : ImageSlot → Picture → ℕ → ImageSlot
  mastered im p now = record im {
    sha256 = p.sha;
    width = u32 p.cols;
    height = u32 p.rows;
    nbytes = u32 (length p.bytes);
    mime = p.mime;
    phash = p.phash;
    dhash = p.dhash;
    updated_at = now;
  }

  -- The slot, the digest map and the file of image row `i` for the new picture.
  pub new_master : Gallery Float Index → ℕ → Picture → ℕ → Gallery Float Index
  new_master g i p now = record g {
    masters = set_sha g.masters p.sha (some p.bytes);
    sha_to_idx = set_sha (set_sha g.sha_to_idx (g.images.at i).sha256 none) p.sha (some i);
    images = put g.images i (mastered (g.images.at i) p now);
  }

  -- The faces of the image after the matching, the appends and the burials.
  pub rematched :
      Config Float → Gallery Float Index → ℕ → List (DetectedFace Float) → ℕ → Gallery Float Index
  rematched cfg g i faces now =
      let rows = g.image_faces.at i in
      let m =
        match_pairs cfg faces rows (sort_pairs (all_pairs g.embs 0 faces rows)) now
          (record { gallery = g; new_used = λ _. false; old_used = λ _. false; touched = [] }) in
      let g₁ = append_unmatched cfg m.new_used m.gallery (suc i) 0 faces now in
      let g₂ = tombstone_unmatched m.old_used g₁ 0 rows now in
      recompute_all g₂ (unique (sort m.touched)) now

  pub upgrade_row :
      Config Float
      → Gallery Float Index
      → ℕ
      → Picture
      → List (DetectedFace Float)
      → ℕ
      → Gallery Float Index
  upgrade_row cfg g i p faces now =
      let g₁ = rematched cfg (new_master g i p now) i faces now in
      record g₁ {
        images =
            put g₁.images i
              (record (g₁.images.at i) { nfaces = u32 (length (g₁.image_faces.at i)) });
        masters = set_sha g₁.masters (g.images.at i).sha256 none;
      }

  pub upgrade_at :
      Config Float
      → Gallery Float Index
      → Option ℕ
      → Picture
      → List (DetectedFace Float)
      → ℕ
      → Option (Gallery Float Index)
  upgrade_at cfg g none p faces now = none
  upgrade_at cfg g (some i) p faces now = some (upgrade_row cfg g i p faces now)

  -- `none` is the exception "no image".
  pub upgrade :
      Config Float
      → Gallery Float Index
      → ℤ
      → Picture
      → List (DetectedFace Float)
      → ℕ
      → Option (Gallery Float Index)
  upgrade cfg g image_id p faces now = upgrade_at cfg g (live_row fl us g image_id) p faces now

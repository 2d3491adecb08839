-- ===== src/Gallery/Load.antt =====
-- How a gallery starts on the files of its directory: the constructor of src/store/gallery.cpp with
-- ensure_i8_version and rebuild_maps, and load_identity_state_locked of src/store/identity.cpp. A loop
-- over the rows below `n` is a recursion on `n`, which does the rows before the last one first.
mod Maps
mod Members
mod Reopen
mod Tests
use hvax.Prelude.{
  ℕ, zero, suc, ◌+◌, Bool, true, false, not, ◌&&◌, ◌||◌, Option, none, some, List, [], ◌∷◌, ◌++◌,
  ltb, leb, ◌==◌, if◌then◌else◌, min, max, Table, put, filled, length, replicate,
}
use hvax.Floats.{Floats}
use hvax.Hnsw.{Usearch, rebuild_from}
use hvax.Vectors.{zeros, quantize_i8}
use hvax.Types.{
  FaceSlot, ImageSlot, IdentitySlot, tombstone, has, hidden_flag, slot_live, face_indexable, u32,
}
use hvax.Gallery.State.{Gallery, Sha}
use hvax.Gallery.Identities.{refresh_centroid_norm, recompute_identity, set_ref, resized}
use hvax.Gallery.Faces.{track_image_face}
use hvax.Gallery.Images.{set_sha}

-- kI8FileVersion
abbrev pub i8_file_version : ℕ
i8_file_version = 2

-- The digests of the live images among the first `n`; the later one of two with the same wins.
unfoldable pub shas_below : Table ImageSlot → ℕ → Sha → Option ℕ
unfolding set_sha
shas_below images zero k = none
shas_below images (suc n) k =
    if slot_live (images.at n).flags
    then set_sha (shas_below images n) (images.at n).sha256 (some n) k
    else shas_below images n k

unfoldable pub flags_below : {F : Type 0} → Table (FaceSlot F) → ℕ → Table ℕ → Table ℕ
flags_below faces zero cache = cache
flags_below faces (suc n) cache = put (flags_below faces n cache) n (faces.at n).flags

unfoldable pub images_below :
    {F : Type 0} → Table (FaceSlot F) → ℕ → Table (List ℕ) → Table (List ℕ)
images_below faces zero lists = lists
images_below faces (suc n) lists =
    let before = images_below faces n lists in
    if slot_live (faces.at n).flags then track_image_face before (faces.at n).image_id n else before

-- The hidden mirror of the first `n` identities.
unfoldable pub hidden_below : Table IdentitySlot → ℕ → Table Bool → Table Bool
hidden_below identities zero t = t
hidden_below identities (suc n) t =
    let before = hidden_below identities n t in
    if slot_live (identities.at n).flags && has hidden_flag (identities.at n).flags
    then put before n true
    else before

unfoldable pub hidden_count_below : Table IdentitySlot → ℕ → ℕ
hidden_count_below identities zero = 0
hidden_count_below identities (suc n) =
    hidden_count_below identities n
    + (if slot_live (identities.at n).flags && has hidden_flag (identities.at n).flags
        then 1
        else 0)

module _ (fl : Floats) (us : Usearch fl.Float) where
  open fl use {Float}
  open us use {Index}

  unfoldable pub rebuild_maps : Gallery Float Index → Gallery Float Index
  rebuild_maps g = record g {
    sha_to_idx = shas_below g.images g.images.size;
    flags_cache = flags_below g.faces g.faces.size (filled g.faces.size tombstone);
    image_faces = images_below g.faces g.faces.size (filled g.images.size []);
  }

  -- Row `i` enters the list of its identity `id`, or loses a reference that dangles.
  unfoldable pub load_member : Gallery Float Index → ℕ → ℕ → Gallery Float Index
  unfolding set_ref
  load_member g i zero = g
  load_member g i (suc id) =
      let live = ltb id g.identities.size && slot_live (g.identities.at id).flags in
      if not live || not (face_indexable (g.faces.at i).flags)
      then record g { faces = set_ref fl us g.faces i 0 }
      else record g { members = put g.members id (g.members.at id ++ (u32 i ∷ [])) }

  unfoldable pub load_face : Gallery Float Index → ℕ → Gallery Float Index
  load_face g i =
      if slot_live (g.faces.at i).flags then load_member g i (g.faces.at i).identity_ref else g

  unfoldable pub load_faces : ℕ → Gallery Float Index → Gallery Float Index
  load_faces zero g = g
  load_faces (suc n) g = load_face (load_faces n g) n

  unfoldable pub load_identity : Gallery Float Index → ℕ → ℕ → Gallery Float Index
  load_identity g id now =
      if not (slot_live (g.identities.at id).flags)
      then g
      else (if (g.identities.at id).size == length (g.members.at id)
          then record g {
            centroid_norm = refresh_centroid_norm fl us g.centroids g.centroid_norm id;
          }
          else recompute_identity fl us g id now)

  unfoldable pub load_identities : ℕ → Gallery Float Index → ℕ → Gallery Float Index
  load_identities zero g now = g
  load_identities (suc n) g now = load_identity (load_identities n g now) n now

  -- The state before the loop over the faces.
  unfoldable pub identity_tables : Gallery Float Index → Gallery Float Index
  identity_tables g =
      let c = g.identities.size in
      record g {
        centroids = resized fl us g.centroids c;
        members = filled c [];
        centroid_norm = filled c (zeros fl);
        hidden = hidden_below g.identities c (filled c false);
        hidden_count = hidden_count_below g.identities c;
      }

  unfoldable pub load_identity_state : Gallery Float Index → ℕ → Gallery Float Index
  load_identity_state g now =
      load_identities g.identities.size
        (load_faces (min g.embs.size g.faces.size) (identity_tables g)) now

  -- The quantised rows, made anew from the first `n` embeddings.
  unfoldable pub requantized : Gallery Float Index → ℕ → Gallery Float Index
  requantized g n = record g {
    embs_i8 = record {
      size = max g.embs_i8.size n;
      at = λ r. if ltb r n then quantize_i8 fl (g.embs.at r) else g.embs_i8.at r;
    };
  }

  -- `version` is the one in the header of embeddings.i8.
  unfoldable pub ensure_i8_version : Gallery Float Index → ℕ → Gallery Float Index
  ensure_i8_version g version =
      let n = min g.embs.size g.faces.size in
      if not (version == i8_file_version) || ltb g.embs_i8.size n then requantized g n else g

  unfoldable pub index_if_empty : Gallery Float Index → Bool → Gallery Float Index
  index_if_empty g reindex =
      let n = min g.embs.size g.faces.size in
      if us.size g.hnsw == 0 && (ltb 0 n && not reindex)
      then record g { hnsw = rebuild_from fl us g.embs n g.flags_cache }
      else g

  -- The gallery that starts on the files of `g`: its tables of rows, its index and its pictures. The
  -- other fields of `g` are not read.
  unfoldable pub reopened : Gallery Float Index → ℕ → Bool → ℕ → Gallery Float Index
  reopened g version reindex now =
      index_if_empty (load_identity_state (rebuild_maps (ensure_i8_version g version)) now) reindex

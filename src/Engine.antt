-- ===== src/Engine.antt =====
-- Ingest of src/engine.cpp: confirm_soft, persist_ingest, ingest, ingest_processed and check_ingest.
-- persist_ingest holds its lock throughout, so a call is one step. Counters and logs are left out.
pub mod Persist
pub mod Repeat
mod Tests
use hvax.Prelude.{
  ℕ, zero, suc, ◌+◌, ◌*◌, Bool, true, false, not, ◌&&◌, ◌||◌, Option, none, some, ◌>>=◌, List, [],
  ◌∷◌, ltb, leb, ◌==◌, if◌then◌else◌, length, ℤ, pos, negsuc,
}
use hvax.Floats.{Floats}
use hvax.Hnsw.{Usearch}
use hvax.Vectors.{dot512}
use hvax.Types.{DetectedFace, FaceSlot, ImageSlot}
use hvax.Gallery.State.{Gallery, Config, Sha}
use hvax.Gallery.Images.{Picture, find_by_sha, insert}
use hvax.Gallery.Upgrade.{upgrade}
use hvax.Gallery.Dedup.{DedupHit, find_perceptual}
use hvax.Gallery.Reads.{image, faces_of, face_embedding}

pub data IngestStatus : Type 0 where
  stored duplicate upgraded ignored_no_face bad_image : IngestStatus

-- duplicate_kind: "", "sha256" or "perceptual".
pub data DuplicateKind : Type 0 where
  no_kind by_sha256 by_perceptual : DuplicateKind

pub record IngestResult (F : Type 0) : Type 0 where
  pub status : IngestStatus
  pub image_id : ℕ
  pub sha256 : Sha
  pub width : ℕ
  pub height : ℕ
  pub duplicate : Bool
  pub duplicate_kind : DuplicateKind
  pub master_replaced : Bool
  pub previous : Option ImageSlot
  pub faces : List (FaceSlot F)

-- Decoding, hashing and the face pipeline, which are no part of the model: what they make of the
-- bytes of an upload.
pub record Media (F : Type 0) : Type 0 where
  pub sha256_bytes : List ℕ → Sha
  -- decode_image, with sniff_mime and hash_image: `none` is an empty matrix.
  pub decode : List ℕ → Option Picture
  pub run_pipeline : List ℕ → List (DetectedFace F)

pub record IngestCheckResult : Type 0 where
  pub duplicate : Bool
  pub process_required : Bool
  pub duplicate_kind : DuplicateKind
  pub image_id : ℕ
  pub width : ℕ
  pub height : ℕ

abbrev pub no_check : IngestCheckResult
no_check = record {
  duplicate = false;
  process_required = true;
  duplicate_kind = no_kind;
  image_id = 0;
  width = 0;
  height = 0;
}

unfoldable pub none_of : {A : Type 0} → List A → Bool
none_of [] = true
none_of (x ∷ xs) = false

module _ (fl : Floats) (us : Usearch fl.Float) where
  open fl use {Float, lit, le}
  open us use {Index}

  abbrev pub Result : Type 0
  Result = IngestResult Float × Gallery Float Index

  pub near_face : Option (List Float) → DetectedFace Float → Bool
  near_face none nf = false
  near_face (some e) nf = le (lit 97 100) (dot512 fl nf.embedding e)

  -- Whether a face of the image is near the new face.
  pub some_near : Gallery Float Index → List (FaceSlot Float) → DetectedFace Float → Bool
  unfolding near_face
  some_near g [] nf = false
  some_near g (s ∷ existing) nf =
      near_face (face_embedding fl us g s.face_id) nf || some_near g existing nf

  pub all_near : Gallery Float Index → List (FaceSlot Float) → List (DetectedFace Float) → Bool
  unfolding some_near
  all_near g existing [] = true
  all_near g existing (nf ∷ faces) = some_near g existing nf && all_near g existing faces

  pub confirm_soft : Gallery Float Index → ℕ → List (DetectedFace Float) → Bool
  unfolding none_of all_near
  confirm_soft g image_id faces =
      let existing = faces_of fl us g (pos image_id) in
      if none_of faces || none_of existing then false else all_near g existing faces

  -- The answer for the image in slot `im` that is already there.
  unfoldable pub duplicate_of : Gallery Float Index → ImageSlot → DuplicateKind → IngestResult Float
  duplicate_of g im kind = record {
    status = duplicate;
    image_id = im.image_id;
    sha256 = im.sha256;
    width = im.width;
    height = im.height;
    duplicate = true;
    duplicate_kind = kind;
    master_replaced = false;
    previous = none;
    faces = faces_of fl us g (pos im.image_id);
  }

  unfoldable pub upgraded_to : Gallery Float Index → ImageSlot → Picture → IngestResult Float
  upgraded_to g im p = record {
    status = upgraded;
    image_id = im.image_id;
    sha256 = p.sha;
    width = p.cols;
    height = p.rows;
    duplicate = true;
    duplicate_kind = by_perceptual;
    master_replaced = true;
    previous = some im;
    faces = faces_of fl us g (pos im.image_id);
  }

  unfoldable pub stored_as : Gallery Float Index → ℕ → Picture → IngestResult Float
  stored_as g image_id p = record {
    status = stored;
    image_id = image_id;
    sha256 = p.sha;
    width = p.cols;
    height = p.rows;
    duplicate = false;
    duplicate_kind = no_kind;
    master_replaced = false;
    previous = none;
    faces = faces_of fl us g (pos image_id);
  }

  unfoldable pub without_image : IngestStatus → Sha → ℕ → ℕ → IngestResult Float
  without_image status sha cols rows = record {
    status = status;
    image_id = 0;
    sha256 = sha;
    width = cols;
    height = rows;
    duplicate = false;
    duplicate_kind = no_kind;
    master_replaced = false;
    previous = none;
    faces = [];
  }

  unfoldable pub store_new :
      Config Float → Gallery Float Index → Picture → List (DetectedFace Float) → ℕ → Result
  unfolding without_image stored_as
  store_new cfg g p [] now = (without_image ignored_no_face p.sha p.cols p.rows, g)
  store_new cfg g p (f ∷ fs) now =
      let r = insert fl us cfg g p (f ∷ fs) now in (stored_as r.1 r.0 p, r.1)

  -- The picture is one of the image in slot `im`: the larger of the two becomes its master.
  unfoldable pub replace_if_larger :
      Config Float
      → Gallery Float Index
      → ImageSlot
      → Picture
      → List (DetectedFace Float)
      → ℕ
      → Option Result
  unfolding none_of duplicate_of upgraded_to
  replace_if_larger cfg g im p faces now =
      if leb (p.cols * p.rows) (im.width * im.height) || none_of faces
      then some (duplicate_of g im by_perceptual, g)
      else (upgrade fl us cfg g (pos im.image_id) p faces now >>= λ g'.
          some (upgraded_to g' im p, g'))

  -- The tail of persist_ingest, from the answer of find_perceptual; `none` is an exception.
  unfoldable pub persist_dup :
      Config Float
      → Gallery Float Index
      → Picture
      → List (DetectedFace Float)
      → ℕ
      → Option DedupHit
      → Option Result
  unfolding store_new replace_if_larger confirm_soft
  persist_dup cfg g p faces now none = some (store_new cfg g p faces now)
  persist_dup cfg g p faces now (some d) =
      if d.hard || confirm_soft g d.image_id faces
      then (image fl us g (pos d.image_id) >>= λ im. replace_if_larger cfg g im p faces now)
      else some (store_new cfg g p faces now)

  unfoldable pub persist_sha :
      Config Float
      → Gallery Float Index
      → Picture
      → List (DetectedFace Float)
      → ℕ
      → Option ImageSlot
      → Option Result
  unfolding persist_dup duplicate_of
  persist_sha cfg g p faces now (some hit) =
      some (record (duplicate_of g hit by_sha256) { sha256 = p.sha }, g)
  persist_sha cfg g p faces now none =
      persist_dup cfg g p faces now
        (if cfg.dedup_perceptual then find_perceptual fl us cfg g p.phash p.dhash else none)

  -- The picture is one that has been decoded, with its digest and its hashes.
  unfoldable pub persist_ingest :
      Config Float → Gallery Float Index → Picture → List (DetectedFace Float) → ℕ → Option Result
  unfolding persist_sha
  persist_ingest cfg g p faces now = persist_sha cfg g p faces now (find_by_sha fl us g p.sha)

  unfoldable pub ingest_decoded :
      Media Float → Config Float → Gallery Float Index → List ℕ → ℕ → Option Picture → Option Result
  unfolding persist_ingest without_image
  ingest_decoded media cfg g bytes now none = some (without_image bad_image [] 0 0, g)
  ingest_decoded media cfg g bytes now (some p) =
      persist_ingest cfg g (record p { bytes = bytes; sha = media.sha256_bytes bytes })
        (media.run_pipeline bytes) now

  unfoldable pub ingest_sha :
      Media Float
      → Config Float
      → Gallery Float Index
      → List ℕ
      → ℕ
      → Option ImageSlot
      → Option Result
  unfolding ingest_decoded duplicate_of
  ingest_sha media cfg g bytes now (some hit) = some (duplicate_of g hit by_sha256, g)
  ingest_sha media cfg g bytes now none = ingest_decoded media cfg g bytes now (media.decode bytes)

  unfoldable pub ingest :
      Media Float → Config Float → Gallery Float Index → List ℕ → ℕ → Option Result
  unfolding ingest_sha without_image none_of
  ingest media cfg g bytes now =
      if none_of bytes || ltb cfg.max_upload (length bytes)
      then some (without_image bad_image [] 0 0, g)
      else ingest_sha media cfg g bytes now (find_by_sha fl us g (media.sha256_bytes bytes))

  -- A picture that a client has decoded and searched for faces; it is empty if it has no pixels.
  unfoldable pub ingest_processed :
      Config Float → Gallery Float Index → Picture → List (DetectedFace Float) → ℕ → Option Result
  unfolding persist_ingest without_image none_of
  ingest_processed cfg g p faces now =
      if none_of p.bytes || ltb cfg.max_upload (length p.bytes) || (p.cols * p.rows == 0)
      then some (without_image bad_image [] 0 0, g)
      else persist_ingest cfg g p faces now

  unfoldable pub checked_as : ImageSlot → DuplicateKind → IngestCheckResult
  checked_as im kind = record {
    duplicate = true;
    process_required = false;
    duplicate_kind = kind;
    image_id = im.image_id;
    width = im.width;
    height = im.height;
  }

  unfoldable pub check_dup :
      Gallery Float Index → ℕ → ℕ → Option DedupHit → Option IngestCheckResult
  unfolding checked_as
  check_dup g width height none = some no_check
  check_dup g width height (some d) =
      if d.hard
      then (image fl us g (pos d.image_id) >>= λ im.
          if ltb (im.width * im.height) (width * height)
          then some no_check
          else some (checked_as im by_perceptual))
      else some no_check

  unfoldable pub check_sha :
      Config Float
      → Gallery Float Index
      → ℕ
      → ℕ
      → ℕ
      → ℕ
      → Option ImageSlot
      → Option IngestCheckResult
  unfolding check_dup checked_as
  check_sha cfg g phash dhash width height (some hit) = some (checked_as hit by_sha256)
  check_sha cfg g phash dhash width height none =
      if not cfg.dedup_perceptual || width == 0 || height == 0
      then some no_check
      else check_dup g width height (find_perceptual fl us cfg g phash dhash)

  -- A size that is not positive is 0.
  unfoldable pub check_ingest :
      Config Float → Gallery Float Index → Sha → ℕ → ℕ → ℕ → ℕ → Option IngestCheckResult
  unfolding check_sha
  check_ingest cfg g sha phash dhash width height =
      check_sha cfg g phash dhash width height (find_by_sha fl us g sha)

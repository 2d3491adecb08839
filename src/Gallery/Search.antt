-- ===== src/Gallery/Search.antt =====
-- Search of src/store/gallery.cpp: row_hidden_locked, hydrate_one, hydrate, candidates_locked,
-- group_hits and search_locked.
pub mod Hidden
pub mod Widen
pub mod Groups
pub mod Row
mod Tests
use hvax.Prelude.{
  ℕ, zero, suc, ◌+◌, ◌-◌, ◌*◌, Bool, true, false, not, ◌&&◌, ◌||◌, Option, none, some, List, [],
  ◌∷◌, ◌++◌, ltb, leb, ◌==◌, if◌then◌else◌, ◌>>=◌, Table, length, take, min, max, ℤ, pos, negsuc,
}
use hvax.Floats.{Floats}
use hvax.Hnsw.{Usearch}
use hvax.Hnsw
use hvax.Vectors.{dot512, quantize_i8}
use hvax.Scan.{ScanHit, flagged, sort_hits, exact_topk_f32, exact_topk_i8}
use hvax.Types.{BBox, FaceSlot, ImageSlot, slot_live, identity_of}
use hvax.Gallery.State.{Gallery, Config}
use hvax.Gallery.Faces.{face_size_px}

pub record Hit (F : Type 0) : Type 0 where
  pub face_id : ℕ
  pub image_id : ℕ
  pub sha256 : List ℕ
  pub row : ℕ
  pub score : F
  pub box : BBox F
  pub det_score : F
  pub quality : F
  pub flags : ℕ
  pub identity_id : ℤ
  pub hidden : Bool
  pub collapsed : ℕ

pub record SearchOptions (F : Type 0) : Type 0 where
  pub k : ℕ
  pub min_score : F
  pub include_low_quality : Bool
  pub range : Bool
  pub group_by_identity : Bool
  pub include_hidden : Bool

-- The hidden mirror at an id that may be out of range.
unfoldable pub hidden_at : Table Bool → ℤ → Bool
hidden_at hidden (negsuc _) = false
hidden_at hidden (pos id) = ltb id hidden.size && hidden.at id

module _ (fl : Floats) where
  open fl use {Float, lit, sub, mul, div, log2, lt, le}

  -- std::clamp(x, 0.f, 1.f)
  pub unit_clamp : Float → Float
  unit_clamp x = if lt x (lit 0 1) then lit 0 1 else (if lt (lit 1 1) x then lit 1 1 else x)

  -- kAlign is 112.
  pub face_quality : Float → BBox Float → Float
  unfolding unit_clamp
  face_quality det_score b =
      let size = face_size_px fl b in
      let upscale = div (log2 (div size (lit 16 1))) (log2 (div (lit 112 1) (lit 16 1))) in
      if le size (lit 16 1) then lit 0 1 else mul (unit_clamp det_score) (unit_clamp upscale)

  pub is_id : ℕ → ℤ → Bool
  is_id id (negsuc _) = false
  is_id id (pos j) = j == id

  -- Whether a hit of identity `id` has been taken.
  pub seen : ℕ → List (Hit Float) → Bool
  unfolding is_id
  seen id [] = false
  seen id (h ∷ hits) = is_id id h.identity_id || seen id hits

  -- `++out[it->second].collapsed`
  pub bump : ℕ → List (Hit Float) → List (Hit Float)
  unfolding is_id
  bump id [] = []
  bump id (h ∷ hits) =
      let rest = bump id hits in
      if is_id id h.identity_id then record h { collapsed = h.collapsed + 1 } ∷ hits else h ∷ rest

  -- The loop body of group_hits; the map from identities to positions is read off the hits taken.
  pub group_step : ℕ → List (Hit Float) → Hit Float → ℤ → List (Hit Float)
  unfolding seen bump
  group_step k out h (negsuc _) = if ltb (length out) k then out ++ (h ∷ []) else out
  group_step k out h (pos id) =
      if seen id out then bump id out else (if leb k (length out) then out else out ++ (h ∷ []))

  pub group_loop : ℕ → List (Hit Float) → List (Hit Float) → List (Hit Float)
  unfolding group_step
  group_loop k out [] = out
  group_loop k out (h ∷ hits) = group_loop k (group_step k out h h.identity_id) hits

  pub group_hits : List (Hit Float) → ℕ → List (Hit Float)
  unfolding group_loop
  group_hits hits k = group_loop k [] hits

module _ (fl : Floats) (us : Usearch fl.Float) where
  open fl use {Float, lit, sub, lt, le}
  open us use {Index}

  unfoldable pub row_hidden : Gallery Float Index → ℕ → Bool
  row_hidden g row =
      if g.hidden_count == 0 || leb g.faces.size row
      then false
      else hidden_at g.hidden (identity_of (g.faces.at row))

  pub hit_of : FaceSlot Float → ImageSlot → ℕ → Float → Bool → Hit Float
  hit_of s image row score hidden = record {
    face_id = s.face_id;
    image_id = s.image_id;
    sha256 = image.sha256;
    row = row;
    score = score;
    box = s.box;
    det_score = s.det_score;
    quality = face_quality fl s.det_score s.box;
    flags = s.flags;
    identity_id = identity_of s;
    hidden = hidden;
    collapsed = 0;
  }

  -- The hit of a live face on the image with the given id.
  pub hit_on : Gallery Float Index → ℕ → Float → ℕ → Option (Hit Float)
  unfolding hit_of row_hidden
  hit_on g row score zero = none
  hit_on g row score (suc i) =
      if ltb i g.images.size && slot_live (g.images.at i).flags
      then some (hit_of (g.faces.at row) (g.images.at i) row score (row_hidden g row))
      else none

  -- `none` is `ok == false`.
  pub hydrate_one : Gallery Float Index → ℕ → Float → Bool → Option (Hit Float)
  unfolding row_hidden hit_on
  hydrate_one g row score include_hidden =
      if leb g.faces.size row
        || not (slot_live (g.faces.at row).flags)
        || (row_hidden g row && not include_hidden)
      then none
      else hit_on g row score (g.faces.at row).image_id

  pub cons_hit : Option (Hit Float) → List (Hit Float) → List (Hit Float)
  cons_hit none hits = hits
  cons_hit (some h) hits = h ∷ hits

  pub hydrate : Gallery Float Index → List (ScanHit fl) → Bool → List (Hit Float)
  unfolding hydrate_one cons_hit
  hydrate g [] include_hidden = []
  hydrate g (r ∷ rows) include_hidden =
      cons_hit (hydrate_one g r.row r.score include_hidden) (hydrate g rows include_hidden)

  -- The int8 candidates with their exact scores, less those under the floor.
  pub rerank_exact :
      Gallery Float Index → List Float → Float → List (ScanHit fl) → List (ScanHit fl)
  rerank_exact g query min_score [] = []
  rerank_exact g query min_score (c ∷ cand) =
      let rest = rerank_exact g query min_score cand in
      let s = dot512 fl query (g.embs.at c.row) in
      let hit : ScanHit fl = record { row = c.row; score = s } in
      if le min_score s then hit ∷ rest else rest

  -- The answers of the index, likewise, less the rows out of range and those skipped.
  pub rerank_approx :
      Gallery Float Index → ℕ → List Float → Float → Bool → List (ℕ × Float) → List (ScanHit fl)
  rerank_approx g n query min_score low [] = []
  rerank_approx g n query min_score low (a ∷ approx) =
      let rest = rerank_approx g n query min_score low approx in
      let s = dot512 fl query (g.embs.at a.0) in
      let hit : ScanHit fl = record { row = a.0; score = s } in
      if leb n a.0 || flagged g.flags_cache low a.0 || lt s min_score then rest else hit ∷ rest

  -- The first `want` of the hits by falling score.
  pub best_of : ℕ → List (ScanHit fl) → List (ScanHit fl)
  best_of want hits = take want (sort_hits fl hits)

  pub saturated : List (ℕ × Float) → List (ScanHit fl) → ℕ → Bool
  saturated approx rerank pool =
      not (length approx == 0) && length rerank == length approx && leb pool (length approx)

  -- The loop `for (;;)`: `none` if the fuel does not do.
  pub widen :
      ℕ
      → Gallery Float Index
      → ℕ
      → List Float
      → ℕ
      → Float
      → Bool
      → Bool
      → ℕ
      → ℕ
      → Option (List (ScanHit fl))
  unfolding rerank_approx best_of saturated
  widen zero g n query want min_score low range max_pool pool = none
  widen (suc fuel) g n query want min_score low range max_pool pool =
      let approx = Hnsw.search fl us g.hnsw query pool in
      let rerank = rerank_approx g n query min_score low approx in
      let wider =
        widen fuel g n query want min_score low range max_pool (min max_pool (pool * 2)) in
      if range && saturated approx rerank pool && ltb pool max_pool
      then wider
      else some (best_of want rerank)

  pub exact_candidates :
      Config Float → Gallery Float Index → ℕ → List Float → ℕ → Float → Bool → List (ScanHit fl)
  unfolding rerank_exact best_of
  exact_candidates cfg g n query want min_score low =
      let cand =
        exact_topk_i8 fl g.embs_i8 n (quantize_i8 fl query) (max (want * 4) (want + 32))
          g.flags_cache (sub min_score (lit 2 100)) low in
      if cfg.i8_scan && leb n g.embs_i8.size
      then best_of want (rerank_exact g query min_score cand)
      else exact_topk_f32 fl g.embs n query want g.flags_cache min_score low

  pub candidates :
      Config Float
      → Gallery Float Index
      → List Float
      → ℕ
      → Float
      → Bool
      → Bool
      → Option (List (ScanHit fl))
  unfolding widen exact_candidates
  candidates cfg g query want min_score low range =
      let n = min g.embs.size g.faces.size in
      let pool = if range then max 64 want else max (want * 8) 64 in
      let max_pool = max pool cfg.max_range in
      if n == 0 || want == 0
      then some []
      else (if ltb n cfg.exact_until || low || us.size g.hnsw == 0
          then some (exact_candidates cfg g n query want min_score low)
          else widen (suc max_pool) g n query want min_score low range max_pool pool)

  -- How many hits are asked for, and with how much slack for those that are hidden.
  pub wanted : Config Float → SearchOptions Float → ℕ
  wanted cfg opts =
      let k = max opts.k 1 in
      if opts.range
      then max cfg.max_range k
      else (if opts.group_by_identity then max (k * 8) 64 else k)

  pub fetched : Config Float → Gallery Float Index → SearchOptions Float → ℕ
  unfolding wanted
  fetched cfg g opts =
      let want = wanted cfg opts in
      if (ltb 0 g.hidden_count && not opts.include_hidden) && not opts.range
      then want * 2 + 16
      else want

  pub finish : SearchOptions Float → List (Hit Float) → List (Hit Float)
  finish opts hits =
      let k = max opts.k 1 in
      if opts.group_by_identity
      then group_hits fl hits k
      else (if opts.range then hits else take k hits)

  -- `none` only if the loop of the candidates ran out of fuel, which Widen excludes.
  pub search_locked :
      Config Float
      → Gallery Float Index
      → List Float
      → SearchOptions Float
      → Option (List (Hit Float))
  unfolding candidates hydrate finish fetched
  search_locked cfg g query opts = do
    rows ←
        candidates cfg g query (fetched cfg g opts) opts.min_score opts.include_low_quality
          opts.range
    some (finish opts (hydrate g rows opts.include_hidden))

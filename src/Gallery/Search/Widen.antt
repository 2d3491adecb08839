-- ===== src/Gallery/Search/Widen.antt =====
-- The loop of candidates_locked (src/store/gallery.cpp) that widens the pool ends.
use hvax.Prelude.{
  ℕ, zero, suc, ◌+◌, ◌*◌, ◌<◌, ◌≡◌, refl, Bool, ◌&&◌, ◌||◌, some, List, [], ltb, ◌==◌,
  if◌then◌else◌, min, max, arith, Bool-cases, inl, inr,
}
use hvax.Floats.{Floats}
use hvax.Hnsw.{Usearch}
use hvax.Hnsw
use hvax.Scan.{ScanHit}
use hvax.Gallery.State.{Config}
use hvax.Gallery.Invariant.{G}
use hvax.Gallery.Search.{
  Hit, SearchOptions, rerank_approx, best_of, saturated, widen, exact_candidates, candidates,
  fetched, finish, hydrate, search_locked,
}

module _ (fl : Floats) (us : Usearch fl.Float) where
  module _ (g : G fl us) (n : ℕ) (query : List fl.Float) (want : ℕ) (min_score : fl.Float)
      (low range : Bool) (max_pool : ℕ) where
    -- Each round makes the pool larger, until it is `max_pool`.
    widen-total :
        (fuel pool : ℕ)
        → 0 < pool
        → max_pool < fuel + pool
        → 0 < fuel
        → (out : List (ScanHit fl)) × (widen fl us fuel g n query want min_score low range max_pool
              pool
            ≡ some out)
    unfolding widen
    widen-total zero pool h enough some_fuel = ground (arith, some_fuel)
    widen-total (suc fuel) pool h enough some_fuel =
        let approx = Hnsw.search fl us g.hnsw query pool in
        let rerank = rerank_approx fl us g n query min_score low approx in
        elim (Bool-cases (range && saturated fl us approx rerank pool && ltb pool max_pool)) [
          | inl again ↦
              let below : pool < max_pool = ground (arith, again) in
              rw again (
                widen-total fuel (min max_pool (pool * 2)) (omega (arith, h, below))
                  (omega (arith, h, below, enough)) (omega (arith, below, enough)))
          | inr done ↦ rw done (best_of fl us want rerank, refl)
        ]

  candidates-total :
      (cfg : Config fl.Float) (g : G fl us) (query : List fl.Float) (want : ℕ)
      (min_score : fl.Float) (low range : Bool)
      → (out : List (ScanHit fl)) × (candidates fl us cfg g query want min_score low range
          ≡ some out)
  unfolding candidates
  candidates-total cfg g query want min_score low range =
      let n = min g.embs.size g.faces.size in
      let pool = if range then max 64 want else max (want * 8) 64 in
      let max_pool = max pool cfg.max_range in
      elim (Bool-cases (n == 0 || want == 0)) [
        | inl empty ↦ rw empty ([], refl)
        | inr some_rows ↦ elim (Bool-cases (ltb n cfg.exact_until || low || us.size g.hnsw == 0)) [
          | inl exact ↦
              rw (some_rows, exact) (exact_candidates fl us cfg g n query want min_score low, refl)
          | inr approx ↦
              rw (some_rows, approx)
                (widen-total g n query want min_score low range max_pool (suc max_pool) pool
                  (ground arith) (ground arith) (omega arith))
        ]
      ]

  pub search_locked_total :
      (cfg : Config fl.Float) (g : G fl us) (query : List fl.Float) (opts : SearchOptions fl.Float)
      → (hits : List (Hit fl.Float)) × (search_locked fl us cfg g query opts ≡ some hits)
  unfolding search_locked
  search_locked_total cfg g query opts =
      let rows =
        candidates-total cfg g query (fetched fl us cfg g opts) opts.min_score
          opts.include_low_quality opts.range in
      rw rows.1 (finish fl us opts (hydrate fl us g rows.0 opts.include_hidden), refl)

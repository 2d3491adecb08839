-- ===== src/Gallery/Dedup/Nearest.antt =====
-- find_perceptual of src/store/gallery.cpp answers with a live image that is near enough, and with
-- the nearest one where both hashes are near.
use native.Mathlib.Decide.{ℕ_discrete}
use hvax.Prelude.{
  ℕ, zero, suc, ◌+◌, ◌≤◌, ◌<◌, ◌≡◌, refl, Bool, true, false, ◌&&◌, ◌||◌, Option, none, some, ltb,
  leb, if◌then◌else◌, Table, arith, Bool-cases, inl, inr, subst,
}
use hvax.Floats.{Floats}
use hvax.Hnsw.{Usearch}
use hvax.Types.{ImageSlot, slot_live}
use hvax.Gallery.State.{Config}
use hvax.Gallery.Invariant.{G}
use hvax.Gallery.Dedup.{
  hamming64, DedupHit, DedupState, beats_hard, dedup_step, dedup_image, dedup_loop, hard_first,
  find_perceptual,
}

module _ (fl : Floats) (us : Usearch fl.Float) (cfg : Config fl.Float) (images : Table ImageSlot)
    (phash dhash : ℕ) where
  abbrev ph : ℕ → ℕ
  ph i = hamming64 phash (images.at i).phash

  abbrev dh : ℕ → ℕ
  dh i = hamming64 dhash (images.at i).dhash

  -- The hit is a live image below `n` with its distances: both within the thresholds, if it is hard,
  -- else just one.
  pub record IsNear (n : ℕ) (h : DedupHit) : Type 0 where
    pub row : ℕ
    pub inside : row < n
    pub live : slot_live (images.at row).flags ≡ true
    pub image_id : h.image_id ≡ (images.at row).image_id
    pub ph_dist : h.ph_dist ≡ ph row
    pub dh_dist : h.dh_dist ≡ dh row
    pub near :
        (if h.hard
          then leb h.ph_dist cfg.phash_threshold && leb h.dh_dist cfg.dhash_threshold
          else leb h.ph_dist cfg.phash_threshold || leb h.dh_dist cfg.dhash_threshold)
        ≡ true

  abbrev pub Near : ℕ → Option DedupHit → Type 0
  Near n none = Unit
  Near n (some h) = IsNear n h

  Near-weaken : (n : ℕ) (o : Option DedupHit) → Near n o → Near (suc n) o
  Near-weaken n none a = tt
  Near-weaken n (some h) a = record {
    row = a.row;
    inside = omega (arith, a.inside);
    live = a.live;
    image_id = a.image_id;
    ph_dist = a.ph_dist;
    dh_dist = a.dh_dist;
    near = a.near;
  }

  -- A hard hit is at least as near as the image of row `i`, if that is near in both hashes.
  abbrev pub Beats : ℕ → Option DedupHit → Type 0
  Beats d none = ⊥
  Beats d (some h) = (h.hard ≡ true) × (h.ph_dist + h.dh_dist ≤ d)

  abbrev state : ℕ → DedupState
  state n = dedup_loop fl us cfg images phash dhash n

  step-Near :
      (n : ℕ) (s : DedupState)
      → slot_live (images.at n).flags ≡ true
      → Near n s.hard × Near n s.soft
      → let s' =
          dedup_step cfg.phash_threshold cfg.dhash_threshold
            (images.at n).image_id
            (ph n)
            (dh n)
            s in
        Near (suc n) s'.hard × Near (suc n) s'.soft
  unfolding dedup_step
  step-Near n s live a =
      let old : Near (suc n) s.hard × Near (suc n) s.soft =
        (Near-weaken n s.hard a.0, Near-weaken n s.soft a.1) in
      elim (Bool-cases (leb (ph n) cfg.phash_threshold && leb (dh n) cfg.dhash_threshold)) [
        | inl both ↦ elim (Bool-cases (beats_hard (ph n + dh n) s.hard)) [
          | inl better ↦ rw (both, better) (new true both, old.1)
          | inr worse ↦ rw (both, worse) old
        ]
        | inr not_both ↦
            elim (Bool-cases (leb (ph n) cfg.phash_threshold || leb (dh n) cfg.dhash_threshold)) [
              | inl one ↦ elim (Bool-cases (ltb (ph n + dh n) s.best_soft)) [
                | inl better ↦ rw (not_both, one, better) (old.0, new false one)
                | inr worse ↦ rw (not_both, one, worse) old
              ]
              | inr neither ↦ rw (not_both, neither) old
            ]
      ]
    where
      new :
          (b : Bool)
          → (if b
              then leb (ph n) cfg.phash_threshold && leb (dh n) cfg.dhash_threshold
              else leb (ph n) cfg.phash_threshold || leb (dh n) cfg.dhash_threshold)
            ≡ true
          → IsNear (suc n) (record {
            image_id = (images.at n).image_id;
            ph_dist = ph n;
            dh_dist = dh n;
            hard = b;
          })
      new b e = record {
        row = n;
        inside = omega arith;
        live = live;
        image_id = refl;
        ph_dist = refl;
        dh_dist = refl;
        near = e;
      }

  loop-Near : (n : ℕ) → Near n (state n).hard × Near n (state n).soft
  unfolding dedup_loop dedup_image
  loop-Near zero = (tt, tt)
  loop-Near (suc n) = elim (Bool-cases (slot_live (images.at n).flags)) [
    | inl live ↦ rw live (step-Near n (state n) live (loop-Near n))
    | inr dead ↦
        rw dead (
          Near-weaken n (state n).hard (loop-Near n).0,
          Near-weaken n (state n).soft (loop-Near n).1,
        )
  ]

  abbrev Hard : Option DedupHit → Type 0
  Hard none = Unit
  Hard (some h) = h.hard ≡ true

  abbrev hard_hit : ℕ → DedupHit
  hard_hit n = record {
    image_id = (images.at n).image_id;
    ph_dist = ph n;
    dh_dist = dh n;
    hard = true;
  }

  taken :
      (n d : ℕ) (o : Option DedupHit)
      → Hard o
      → let o' = if beats_hard (ph n + dh n) o then some (hard_hit n) else o in
        Hard o' × (Beats d o → Beats d o') × Beats (ph n + dh n) o'
  unfolding beats_hard
  taken n d none a = (refl, λ b. absurd b, (refl, omega arith))
  taken n d (some h) a = elim (Bool-cases (ltb (ph n + dh n) (h.ph_dist + h.dh_dist))) [
    | inl better ↦
        let less : ph n + dh n < h.ph_dist + h.dh_dist = ground (arith, better) in
        rw better (refl, λ b. (refl, omega (arith, b.1, less)), (refl, omega arith))
    | inr worse ↦ rw worse (a, λ b. b, (a, ground (arith, worse)))
  ]

  -- What a hard hit beats, the hit that replaces it beats, and the new hit beats itself.
  step-Beats :
      (n d : ℕ) (s : DedupState)
      → Hard s.hard
      → let s' =
          dedup_step cfg.phash_threshold cfg.dhash_threshold
            (images.at n).image_id
            (ph n)
            (dh n)
            s in
        Hard s'.hard
        × (Beats d s.hard → Beats d s'.hard)
        × ((leb (ph n) cfg.phash_threshold && leb (dh n) cfg.dhash_threshold) ≡ true
            → Beats (ph n + dh n) s'.hard)
  unfolding dedup_step
  step-Beats n d s hard =
      elim (Bool-cases (leb (ph n) cfg.phash_threshold && leb (dh n) cfg.dhash_threshold)) [
        | inl both ↦ let t = taken n d s.hard hard in rw both (t.0, t.1, λ e. t.2)
        | inr not_both ↦
            elim (Bool-cases (leb (ph n) cfg.phash_threshold || leb (dh n) cfg.dhash_threshold)) [
              | inl one ↦ rw (not_both, one) (hard, λ b. b, λ e. cc)
              | inr neither ↦ rw (not_both, neither) (hard, λ b. b, λ e. cc)
            ]
      ]

  loop-Hard : (n : ℕ) → Hard (state n).hard
  unfolding dedup_loop dedup_image
  loop-Hard zero = tt
  loop-Hard (suc n) = elim (Bool-cases (slot_live (images.at n).flags)) [
    | inl live ↦ rw live (step-Beats n 0 (state n) (loop-Hard n)).0
    | inr dead ↦ rw dead (loop-Hard n)
  ]

  loop-Beats :
      (n i : ℕ)
      → i < n
      → slot_live (images.at i).flags ≡ true
      → (leb (ph i) cfg.phash_threshold && leb (dh i) cfg.dhash_threshold) ≡ true
      → Beats (ph i + dh i) (state n).hard
  unfolding dedup_loop dedup_image
  loop-Beats zero i below alive both = ground (arith, below)
  loop-Beats (suc n) i below alive both =
      let s = step-Beats n (ph i + dh i) (state n) (loop-Hard n) in
      elim (ℕ_discrete i n) [
        | yes same ↦ rw same (
            rw (subst (λ k. slot_live (images.at k).flags ≡ true) same alive) (
              s.2 (
                subst
                  (λ k. (leb (ph k) cfg.phash_threshold && leb (dh k) cfg.dhash_threshold) ≡ true)
                  same both)))
        | no other ↦
            let old = loop-Beats n i (omega (arith, below, other)) alive both in
            elim (Bool-cases (slot_live (images.at n).flags)) [
              | inl live ↦ rw live (s.1 old)
              | inr dead ↦ rw dead old
            ]
      ]

module _ (fl : Floats) (us : Usearch fl.Float) (cfg : Config fl.Float) (g : G fl us)
    (phash dhash : ℕ) where
  pub find_perceptual_lem :
      let found = find_perceptual fl us cfg g phash dhash in
      Near fl us cfg g.images phash dhash g.images.size found
      × ((i : ℕ)
          → i < g.images.size
          → slot_live (g.images.at i).flags ≡ true
          → hamming64 phash (g.images.at i).phash ≤ cfg.phash_threshold
          → hamming64 dhash (g.images.at i).dhash ≤ cfg.dhash_threshold
          → Beats fl us cfg g.images phash dhash
              (hamming64 phash (g.images.at i).phash + hamming64 dhash (g.images.at i).dhash)
              found)
  unfolding find_perceptual
  find_perceptual_lem =
      let n = g.images.size in
      let s = dedup_loop fl us cfg g.images phash dhash n in
      let near = loop-Near fl us cfg g.images phash dhash n in
      (
        first s.hard s.soft near.0 near.1,
        λ i inside live p d.
            first-Beats s.hard s.soft _
              (loop-Beats fl us cfg g.images phash dhash n i inside live (ground (arith, p, d))),
      )
    where
      first :
          (a b : Option DedupHit)
          → Near fl us cfg g.images phash dhash g.images.size a
          → Near fl us cfg g.images phash dhash g.images.size b
          → Near fl us cfg g.images phash dhash g.images.size (hard_first fl us a b)
      first none b p q = unfold hard_first in q
      first (some h) b p q = unfold hard_first in p

      first-Beats :
          (a b : Option DedupHit) (d : ℕ)
          → Beats fl us cfg g.images phash dhash d a
          → Beats fl us cfg g.images phash dhash d (hard_first fl us a b)
      first-Beats none b d p = absurd p
      first-Beats (some h) b d p = unfold hard_first in p

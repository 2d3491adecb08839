-- ===== src/Gallery/Search/Hidden.antt =====
-- A search that does not ask for hidden people returns none (src/store/gallery.cpp).
use hvax.Prelude.{
  ℕ, zero, suc, ◌<◌, ◌≡◌, refl, subst, Bool, true, false, not, ◌&&◌, ◌||◌, Option, none, some, List,
  [], ◌∷◌, ltb, leb, ◌>>=◌, All, arith, Bool-cases, some-inj, inl, inr, ℤ, pos, negsuc, max, length,
  take-All, append-All,
}
use hvax.Floats.{Floats}
use hvax.Hnsw.{Usearch}
use hvax.Scan.{ScanHit}
use hvax.Types.{has, hidden_flag, slot_live, identity_of, id_of_ref}
use hvax.Gallery.State.{Config}
use hvax.Gallery.Invariant.{G, tally, IsConsistent}
use hvax.Gallery.Search.{
  Hit, SearchOptions, hidden_at, is_id, seen, bump, group_step, group_loop, group_hits, row_hidden,
  hit_of, hit_on, hydrate_one, cons_hit, hydrate, candidates, fetched, finish, search_locked,
}

tally_zero : (f : ℕ → Bool) (n i : ℕ) → tally f n ≡ 0 → i < n → f i ≡ false
tally_zero f zero i e h = ground (arith, h)
tally_zero f (suc n) i e h = ground (arith, tally_zero f n i, e, h)

module _ (fl : Floats) where
  -- A property of the row is kept where hits are collapsed.
  module _ (P : ℕ → Type 0) where
    abbrev OnRow : Hit fl.Float → Type 0
    OnRow h = P h.row

    bump-All : (id : ℕ) (hits : List (Hit fl.Float)) → All OnRow hits → All OnRow (bump fl id hits)
    unfolding bump
    bump-All id [] a = tt
    bump-All id (h ∷ hits) a = elim (Bool-cases (is_id fl id h.identity_id)) [
      | inl same ↦ rw same a
      | inr other ↦ rw other (a.0, bump-All id hits a.1)
    ]

    group_step-All :
        (k : ℕ) (out : List (Hit fl.Float)) (h : Hit fl.Float) (i : ℤ)
        → All OnRow out
        → P h.row
        → All OnRow (group_step fl k out h i)
    unfolding group_step
    group_step-All k out h (negsuc n) a p = elim (Bool-cases (ltb (length out) k)) [
      | inl room ↦ rw room (append-All OnRow out (h ∷ []) a (p, tt))
      | inr full ↦ rw full a
    ]
    group_step-All k out h (pos id) a p = elim (Bool-cases (seen fl id out)) [
      | inl old ↦ rw old (bump-All id out a)
      | inr new ↦ elim (Bool-cases (leb k (length out))) [
        | inl full ↦ rw (new, full) a
        | inr room ↦ rw (new, room) (append-All OnRow out (h ∷ []) a (p, tt))
      ]
    ]

    group_loop-All :
        (k : ℕ) (out hits : List (Hit fl.Float))
        → All OnRow out
        → All OnRow hits
        → All OnRow (group_loop fl k out hits)
    unfolding group_loop
    group_loop-All k out [] a b = a
    group_loop-All k out (h ∷ hits) a b =
        group_loop-All k (group_step fl k out h h.identity_id) hits
          (group_step-All k out h h.identity_id a b.0) b.1

module _ (fl : Floats) (us : Usearch fl.Float) (g : G fl us) where
  finish-All :
      (P : ℕ → Type 0) (opts : SearchOptions fl.Float) (hits : List (Hit fl.Float))
      → All (λ h. P h.row) hits
      → All (λ h. P h.row) (finish fl us opts hits)
  unfolding finish group_hits
  finish-All P opts hits a = elim (Bool-cases opts.group_by_identity) [
    | inl grouped ↦ rw grouped (group_loop-All fl P (max opts.k 1) [] hits tt a)
    | inr single ↦ elim (Bool-cases opts.range) [
      | inl all ↦ rw (single, all) a
      | inr top ↦ rw (single, top) (take-All (λ h. P h.row) (max opts.k 1) hits a)
    ]
  ]

  -- A live face on a live image whose identity, if it has one, is not hidden.
  pub record IsVisible (row : ℕ) : Type 0 where
    pub inside : row < g.faces.size
    pub live : slot_live (g.faces.at row).flags ≡ true
    pub shown :
        (id : ℕ)
        → (g.faces.at row).identity_ref ≡ suc id
        → has hidden_flag (g.identities.at id).flags ≡ false
    pub image : (i : ℕ) → (g.faces.at row).image_id ≡ suc i → slot_live (g.images.at i).flags ≡ true

  module _ (c : IsConsistent fl us g) where
    row_hidden_lem :
        (row id : ℕ)
        → row < g.faces.size
        → (g.faces.at row).identity_ref ≡ suc id
        → row_hidden fl us g row ≡ false
        → has hidden_flag (g.identities.at id).flags ≡ false
    unfolding row_hidden hidden_at identity_of id_of_ref
    row_hidden_lem row id h e out = ground (
      arith,
      c.mirrored id (omega (arith, c.membership.in_range row h, e)),
      c.aligned.hidden,
      c.aligned.tallied,
      c.membership.in_range row h,
      tally_zero g.hidden.at g.hidden.size id,
      e,
      out,
      h,
    )

    -- Of a hit, if there is one, the row is visible.
    abbrev Shown : Option (Hit fl.Float) → Type 0
    Shown none = Unit
    Shown (some h) = IsVisible h.row

    hit_on-Shown :
        (row : ℕ) (score : fl.Float) (image_id : ℕ)
        → row < g.faces.size
        → slot_live (g.faces.at row).flags ≡ true
        → row_hidden fl us g row ≡ false
        → (g.faces.at row).image_id ≡ image_id
        → Shown (hit_on fl us g row score image_id)
    unfolding hit_on hit_of
    hit_on-Shown row score zero inside live out e = tt
    hit_on-Shown row score (suc i) inside live out e =
        elim (Bool-cases (ltb i g.images.size && slot_live (g.images.at i).flags)) [
          | inl there ↦ rw there (record {
            inside = inside;
            live = live;
            shown = λ id ref. row_hidden_lem row id inside ref out;
            image = λ j e'. ground (arith, e, e', there);
          })
          | inr missing ↦ rw missing tt
        ]

    hydrate_one-Shown : (row : ℕ) (score : fl.Float) → Shown (hydrate_one fl us g row score false)
    unfolding hydrate_one
    hydrate_one-Shown row score =
        elim (Bool-cases (
          leb g.faces.size row
          || not (slot_live (g.faces.at row).flags)
          || (row_hidden fl us g row && true))) [
            | inl out ↦ rw out tt
            | inr in_ ↦ rw in_ (
                hit_on-Shown row score (g.faces.at row).image_id (ground (arith, in_))
                  (ground (arith, in_)) (ground (arith, in_)) refl)
          ]

    cons_hit-All :
        (o : Option (Hit fl.Float)) (hits : List (Hit fl.Float))
        → Shown o
        → All (λ h. IsVisible h.row) hits
        → All (λ h. IsVisible h.row) (cons_hit fl us o hits)
    unfolding cons_hit
    cons_hit-All none hits p a = a
    cons_hit-All (some h) hits p a = (p, a)

    hydrate-All :
        (rows : List (ScanHit fl)) → All (λ h. IsVisible h.row) (hydrate fl us g rows false)
    unfolding hydrate
    hydrate-All [] = tt
    hydrate-All (r ∷ rows) =
        cons_hit-All (hydrate_one fl us g r.row r.score false) (hydrate fl us g rows false)
          (hydrate_one-Shown r.row r.score) (hydrate-All rows)

    -- Every hit of a search that does not include hidden people, ranked, ranged or grouped, is a live
    -- face on a live image, and its identity, if it has one, is not hidden.
    pub search_locked-IsVisible :
        (cfg : Config fl.Float) (query : List fl.Float) (opts : SearchOptions fl.Float)
        (hits : List (Hit fl.Float))
        → opts.include_hidden ≡ false
        → search_locked fl us cfg g query opts ≡ some hits
        → All (λ h. IsVisible h.row) hits
    unfolding search_locked
    search_locked-IsVisible cfg query opts hits open_ e =
        go
          (candidates fl us cfg g query (fetched fl us cfg g opts) opts.min_score
            opts.include_low_quality opts.range)
          e
      where
        go :
            (o : Option (List (ScanHit fl)))
            → (o >>= λ rows. some (finish fl us opts (hydrate fl us g rows opts.include_hidden)))
              ≡ some hits
            → All (λ h. IsVisible h.row) hits
        go none e = cc
        go (some rows) e = subst (All (λ h. IsVisible h.row)) (some-inj e) (
            finish-All IsVisible opts (hydrate fl us g rows opts.include_hidden)
              (rw open_ (hydrate-All rows)))

-- ===== src/Gallery/Shared/Agree.antt =====
-- What cooccurring of src/store/identity.cpp counts is what shared_images lists.
use hvax.Prelude.{
  ℕ, zero, suc, ◌-◌, ◌≤◌, ◌<◌, ◌≡◌, refl, ap, ◌∙◌, Bool, true, false, not, ◌&&◌, ◌||◌, List, [],
  ◌∷◌, ◌==◌, All, take-All, arith, Bool-cases, inl, inr, count, length, pos, sort_by, unique_by,
}
use hvax.Prelude.SortBy.Keep.{sort_by-All, unique_by-All, length-take_le, All-imp}
use hvax.Prelude.SortBy.Unique.{unique_by-IsRising}
use hvax.Floats.{Floats}
use hvax.Hnsw.{Usearch}
use hvax.Types.{u32}
use hvax.Gallery.Invariant.{G, nonempty_of_count, IsConsistent}
use hvax.Gallery.Identities.{identity_live}
use hvax.Gallery.Shared.{
  CooccurrenceEntry, pair_before, pair_same, entry_before, open_identity, has_image, add_other,
  others_on, pairs_with, entries_of, cooccurring, common_images, shared_of, shared_images,
}
use hvax.Gallery.Shared.Pairs.{pair_before-IsOrder, firsts, runs-Tallied, runs-All}
use hvax.Gallery.Shared.Common.{on_image_lem}
use hvax.Gallery.Shared.Tally.{firsts-pairs}

All-count : (P : ℕ → Type 0) (xs : List ℕ) → ((r : ℕ) → 1 ≤ count r xs → P r) → All P xs
All-count P [] f = tt
All-count P (x ∷ xs) f = (f x (ground arith), All-count P xs (λ r h. f r (ground (arith, h))))

All-both :
    {A : Type 0} (P Q R : A → Type 0)
    → ((x : A) → P x → Q x → R x)
    → (xs : List A) → All P xs
    → All Q xs
    → All R xs
All-both P Q R f [] a b = tt
All-both P Q R f (x ∷ xs) a b = (f x a.0 b.0, All-both P Q R f xs a.1 b.1)

module _ (fl : Floats) (us : Usearch fl.Float) (g : G fl us) where
  module _ (c : IsConsistent fl us g) (id : ℕ) (include_hidden : Bool) where
    -- Another identity that may be shown.
    abbrev Other : ℕ → Type 0
    Other j = (not (id == j) && open_identity fl us g j include_hidden) ≡ true

    two_of : (j : ℕ) → Other j → (id == j) ≡ false
    two_of j o = ground (arith, o)

    shown_of : (j : ℕ) → Other j → (include_hidden || not (g.hidden.at j)) ≡ true
    unfolding open_identity
    shown_of j o = ground (arith, o)

    referred_live :
        (o j : ℕ)
        → o < g.faces.size
        → (g.faces.at o).identity_ref ≡ suc j
        → identity_live fl us g (pos j) ≡ true
    unfolding identity_live
    referred_live o j h e =
        let inside : j < g.identities.size = omega (arith, c.membership.in_range o h, e) in
        let one : count o (g.members.at j) ≡ 1 =
          ground (arith, c.membership.listed j o inside, h, e) in
        ground (arith, inside, (c.counted j inside).live, nonempty_of_count o (g.members.at j) one)

    add_other-All :
        (img o ref : ℕ) (ps : List (ℕ × ℕ))
        → o < g.faces.size
        → (g.faces.at o).identity_ref ≡ ref
        → All (λ p. Other p.0) ps
        → All (λ p. Other p.0) (add_other fl us g id include_hidden img ref ps)
    unfolding add_other open_identity
    add_other-All img o zero ps h e a = a
    add_other-All img o (suc other) ps h e a =
        elim (Bool-cases (other == id || not include_hidden && g.hidden.at other)) [
          | inl out ↦ rw out a
          | inr in_ ↦ rw in_ (ground (arith, in_, referred_live o other h e), a)
        ]

    others_on-All :
        (img : ℕ) (rows : List ℕ) (ps : List (ℕ × ℕ))
        → All (λ o. o < g.faces.size) rows
        → All (λ p. Other p.0) ps
        → All (λ p. Other p.0) (others_on fl us g id include_hidden img rows ps)
    unfolding others_on
    others_on-All img [] ps h a = a
    others_on-All img (o ∷ rows) ps h a =
        add_other-All img o (g.faces.at o).identity_ref
          (others_on fl us g id include_hidden img rows ps) h.0 refl
          (others_on-All img rows ps h.1 a)

    listed_inside :
        (r : ℕ)
        → has_image fl us g r ≡ true
        → All (λ o. o < g.faces.size) (g.image_faces.at ((g.faces.at r).image_id - 1))
    unfolding has_image
    listed_inside r e =
        All-count (λ o. o < g.faces.size) (g.image_faces.at ((g.faces.at r).image_id - 1))
          (λ o h.
            (on_image_lem fl us g c ((g.faces.at r).image_id - 1) o
              (ground (arith, e, c.aligned.image_faces)) h).0)

    pairs_with-All :
        (rows : List ℕ) → All (λ p. Other p.0) (pairs_with fl us g id include_hidden rows)
    unfolding pairs_with
    pairs_with-All [] = tt
    pairs_with-All (r ∷ rows) = elim (Bool-cases (has_image fl us g r)) [
      | inl there ↦ rw there (
          others_on-All (g.faces.at r).image_id (g.image_faces.at ((g.faces.at r).image_id - 1))
            (pairs_with fl us g id include_hidden rows) (listed_inside r there)
            (pairs_with-All rows))
      | inr missing ↦ rw missing (pairs_with-All rows)
    ]

    -- An entry of another identity that may be shown, with the number of common images.
    abbrev Agrees : CooccurrenceEntry → Type 0
    Agrees e =
        Other e.identity_id
        × (e.shared_images ≡ u32 (length (common_images fl us g id e.identity_id)))

    abbrev found : List (ℕ × ℕ)
    found = pairs_with fl us g id include_hidden (g.members.at id)

    abbrev listed_pairs : List (ℕ × ℕ)
    listed_pairs = unique_by pair_same (sort_by pair_before found)

    abbrev Counts : CooccurrenceEntry → Type 0
    Counts e = e.shared_images ≡ u32 (firsts e.identity_id listed_pairs)

    agrees : (e : CooccurrenceEntry) → Other e.identity_id → Counts e → Agrees e
    agrees e o t = (
      o,
      t
          ∙ ap u32 (
              firsts-pairs fl us g id e.identity_id include_hidden (two_of e.identity_id o)
                (shown_of e.identity_id o)),
    )

    entries_of-All : All Agrees (entries_of fl us g id include_hidden)
    entries_of-All =
        All-both (λ e. Other e.identity_id) Counts Agrees agrees
          (entries_of fl us g id include_hidden)
          (unfold entries_of in
            runs-All Other listed_pairs (
              unique_by-All (λ p. Other p.0) pair_same (sort_by pair_before found)
                (sort_by-All (λ p. Other p.0) pair_before found
                  (pairs_with-All (g.members.at id)))))
          (unfold entries_of in
            runs-Tallied listed_pairs
              (unique_by-IsRising pair_before pair_same pair_before-IsOrder found))

  listed_total :
      (c : IsConsistent fl us g) (id offset limit : ℕ) (include_hidden : Bool)
      → open_identity fl us g id include_hidden ≡ true
      → (e : CooccurrenceEntry) → Agrees c id include_hidden e
      → ((id == e.identity_id) ≡ false)
        × (e.shared_images
            ≡ u32
                (shared_images fl us g (pos id) (pos e.identity_id) offset limit include_hidden).1)
  unfolding shared_images shared_of
  listed_total c id offset limit include_hidden open_ e a =
      let test : (not (id == e.identity_id)
            && (open_identity fl us g id include_hidden
                && open_identity fl us g e.identity_id include_hidden))
          ≡ true =
        ground (arith, a.0, open_) in
      (ground (arith, a.0), rw test a.1)

  -- In a consistent gallery cooccurring answers at most `limit` entries, each for another identity,
  -- with the number of images, as 32 bits, that shared_images of the two gives as its total.
  pub cooccurring-shared_images :
      IsConsistent fl us g
      → (id limit offset page_limit : ℕ) (include_hidden : Bool)
      → let out = cooccurring fl us g (pos id) limit include_hidden in
        (length out ≤ limit)
        × All
            (λ e.
              ((id == e.identity_id) ≡ false)
              × (e.shared_images
                  ≡ u32
                      (shared_images fl us g
                        (pos id)
                        (pos e.identity_id)
                        offset
                        page_limit
                        include_hidden).1))
            out
  unfolding cooccurring
  cooccurring-shared_images c id limit offset page_limit include_hidden =
      elim (Bool-cases (open_identity fl us g id include_hidden)) [
        | inl open_ ↦ rw open_ (
          length-take_le limit _,
          take-All Agreed limit sorted (
              sort_by-All Agreed entry_before entries (
                All-imp (Agrees c id include_hidden) Agreed
                  (listed_total c id offset page_limit include_hidden open_) entries
                  (entries_of-All c id include_hidden))),
        )
        | inr shut ↦ rw shut (omega arith, tt)
      ]
    where
      entries : List CooccurrenceEntry
      entries = entries_of fl us g id include_hidden

      sorted : List CooccurrenceEntry
      sorted = sort_by entry_before entries

      Agreed : CooccurrenceEntry → Type 0
      Agreed e =
          ((id == e.identity_id) ≡ false)
          × (e.shared_images
              ≡ u32
                  (shared_images fl us g (pos id) (pos e.identity_id) offset page_limit
                    include_hidden).1)

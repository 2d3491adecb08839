-- ===== src/Gallery/Counts/Agree.antt =====
-- What the counters and the questions of src/store/gallery.cpp say of a consistent gallery.
use hvax.Prelude.{
  lt→leb, ℕ, zero, suc, ◌+◌, ◌<◌, ◌≡◌, refl, sym, ap, ◌∙◌, subst, arith, Bool, true, false, ◌&&◌,
  ◌||◌, inl, inr, leb, ◌==◌, if◌then◌else◌, pos, Bool-cases, ==_iff, lt→ltb,
}
use hvax.Floats.{Floats}
use hvax.Hnsw.{Usearch, contains}
use hvax.Types.{has, low_quality, hidden_flag, slot_live, face_indexable, identity_of, id_of_ref}
use hvax.Gallery.Identities.{identity_live}
use hvax.Gallery.Search.{row_hidden, hidden_at}
use hvax.Gallery.Counts.{live_faces, low_quality_faces, identity_hidden, face_hidden}
use hvax.Gallery.Invariant.{nonempty_of_count, tally, IsConsistent, G}

-- A tally that splits in two.
tally-split :
    (f p q : ℕ → Bool) (n : ℕ)
    → ((r : ℕ) → r < n → (if f r then 1 else 0) ≡ (if p r then 1 else 0) + (if q r then 1 else 0))
    → tally f n ≡ tally p n + tally q n
tally-split f p q zero h = refl
tally-split f p q (suc n) h =
    omega (arith, h n (omega arith), tally-split f p q n (λ r less. h r (omega (arith, less))))

-- Nothing is true below a tally of none.
tally_none : (f : ℕ → Bool) (n r : ℕ) → tally f n ≡ 0 → r < n → f r ≡ false
tally_none f zero r e h = ground arith
tally_none f (suc n) r e h = elim (Bool-cases (r == n)) [
  | inl same ↦ subst (λ z. f z ≡ false) (sym ((==_iff r n).0 same)) (ground (arith, e))
  | inr other ↦ tally_none f n r (omega (arith, e)) (ground (arith, h, other))
]

live_split :
    (w : ℕ)
    → (if slot_live w then 1 else 0)
      ≡ (if slot_live w && has low_quality w then 1 else 0) + (if face_indexable w then 1 else 0)
unfolding slot_live face_indexable
live_split w = ground arith

module _ (fl : Floats) (us : Usearch fl.Float) (g : G fl us) (c : IsConsistent fl us g) where
  held :
      (r : ℕ)
      → r < g.flags_cache.size
      → contains fl us g.hnsw r ≡ face_indexable (g.flags_cache.at r)
  held r h =
      let inside = subst (λ n. r < n) c.aligned.flags_cache h in
      c.faces.indexed r
      ∙ ap (λ b. b && face_indexable (g.faces.at r).flags) (lt→ltb r g.faces.size inside)
      ∙ ap face_indexable (sym (c.faces.cached r inside))

  -- In a consistent gallery each live face is of low quality or else held by the index.
  pub live_faces-split :
      live_faces fl us g
      ≡ low_quality_faces fl us g + tally (λ r. contains fl us g.hnsw r) g.faces.size
  unfolding live_faces low_quality_faces
  live_faces-split =
      subst
        (λ n.
          live_faces fl us g ≡ low_quality_faces fl us g + tally (λ r. contains fl us g.hnsw r) n)
        c.aligned.flags_cache
        (tally-split _ _ _ g.flags_cache.size (λ r h.
          live_split (g.flags_cache.at r)
          ∙ ap
              (λ b.
                (if slot_live (g.flags_cache.at r) && has low_quality (g.flags_cache.at r)
                  then 1
                  else 0)
                + (if b then 1 else 0))
              (sym (held r h))))

  -- Where no identity is hidden by the count, none is by the mirror.
  none_hidden : (id : ℕ) → g.hidden_count ≡ 0 → id < g.hidden.size → g.hidden.at id ≡ false
  none_hidden id e h = tally_none g.hidden.at g.hidden.size id (sym c.aligned.tallied ∙ e) h

  inside_hidden :
      (r id : ℕ) → r < g.faces.size → (g.faces.at r).identity_ref ≡ suc id → id < g.identities.size
  inside_hidden r id h e = omega (arith, c.membership.in_range r h, e)

  row_hidden-mirror :
      (r id : ℕ)
      → r < g.faces.size
      → (g.faces.at r).identity_ref ≡ suc id
      → row_hidden fl us g r ≡ g.hidden.at id
  unfolding row_hidden identity_of id_of_ref hidden_at
  row_hidden-mirror r id h e = go (g.hidden_count == 0) refl
    where
      below : id < g.hidden.size
      below = subst (λ n. id < n) (sym c.aligned.hidden) (inside_hidden r id h e)

      go :
          (b : Bool)
          → (g.hidden_count == 0) ≡ b
          → (if b || leb g.faces.size r
              then false
              else hidden_at g.hidden (id_of_ref (g.faces.at r).identity_ref))
            ≡ g.hidden.at id
      go true m = sym (none_hidden id ((==_iff g.hidden_count 0).0 m) below)
      go false m =
          ap (λ t. if t then false else hidden_at g.hidden (id_of_ref (g.faces.at r).identity_ref))
            (lt→leb r g.faces.size h)
          ∙ ap (λ ref. hidden_at g.hidden (id_of_ref ref)) e
          ∙ ap (λ t. t && g.hidden.at id) (lt→ltb id g.hidden.size below)

  referred_live :
      (r id : ℕ)
      → r < g.faces.size
      → (g.faces.at r).identity_ref ≡ suc id
      → identity_live fl us g (pos id) ≡ true
  unfolding identity_live
  referred_live r id h e =
      let below = inside_hidden r id h e in
      let member =
        nonempty_of_count r (g.members.at id)
          (c.membership.listed id r below ∙ ground (arith, h, e)) in
      ground (arith, below, (c.counted id below).live, member)

  -- In a consistent gallery a face with an identity is hidden just if the flag word of that
  -- identity says so, and so is the identity.
  pub face_hidden_lem :
      (r id : ℕ)
      → r < g.faces.size
      → (g.faces.at r).identity_ref ≡ suc id
      → (face_hidden fl us g (pos r) ≡ has hidden_flag (g.identities.at id).flags)
        × (identity_hidden fl us g (pos id) ≡ has hidden_flag (g.identities.at id).flags)
  unfolding face_hidden identity_hidden
  face_hidden_lem r id h e =
      let mirrored = c.mirrored id (inside_hidden r id h e) in
      (
        row_hidden-mirror r id h e ∙ mirrored,
        ap (λ b. b && g.hidden.at id) (referred_live r id h e) ∙ mirrored,
      )

-- ===== src/Gallery/Load/Reopen.antt =====
-- A gallery that is closed and started again on its files (the constructor of src/store/gallery.cpp).
use hvax.Prelude.{
  leb, ℤ, ℕ, zero, suc, ◌+◌, ◌<◌, ◌^◌, ◌≡◌, refl, sym, ◌∙◌, inl, inr, arith, Bool, true, false, not,
  ◌&&◌, List, [], ltb, ◌==◌, if◌then◌else◌, Table, filled, min, count, Bool-cases,
}
use hvax.Floats.{Floats}
use hvax.Hnsw.{Usearch, contains, rebuild_rows, rebuild_from}
use hvax.Types.{slot_live, face_indexable}
use hvax.Gallery.State.{Sha}
use hvax.Gallery.Invariant.{G, IsConsistent, tally}
use hvax.Gallery.Images.Keep.{IsSound}
use hvax.Gallery.Load.{hidden_below, rebuild_maps, identity_tables, index_if_empty}
use hvax.Gallery.Load.Members.{members_below}

module _ (fl : Floats) (us : Usearch fl.Float) where
  -- The gallery `g'` has the rows and files of `g`, and what it keeps besides them answers as that of
  -- `g` does: lists hold the same numbers, though perhaps in another order, and the hidden mirror
  -- agrees on identities that are live.
  pub record Reopens (g g' : G fl us) : Type 0 where
    pub images : g'.images ≡ g.images
    pub faces : g'.faces ≡ g.faces
    pub embs : g'.embs ≡ g.embs
    pub identities : g'.identities ≡ g.identities
    pub masters : g'.masters ≡ g.masters
    pub sha_to_idx : (sha : Sha) → g'.sha_to_idx sha ≡ g.sha_to_idx sha
    pub flags_cache : (r : ℕ) → r < g.faces.size → g'.flags_cache.at r ≡ g.flags_cache.at r
    pub image_faces :
        (i r : ℕ) → i < g.images.size → count r (g'.image_faces.at i) ≡ count r (g.image_faces.at i)
    pub members :
        (id r : ℕ) → id < g.identities.size → count r (g'.members.at id) ≡ count r (g.members.at id)
    pub hidden :
        (id : ℕ)
        → id < g.identities.size
        → slot_live (g.identities.at id).flags ≡ true
        → g'.hidden.at id ≡ g.hidden.at id
    pub hidden_count : g'.hidden_count ≡ tally g'.hidden.at g'.hidden.size
    pub indexed : (r : ℕ) → contains fl us g'.hnsw r ≡ contains fl us g.hnsw r

  -- What rebuild_from puts in the index.
  contains-rebuild_rows :
      (rows : Table (List fl.Float)) (flags : Table ℕ) (i left : ℕ) (x : us.Index) (r : ℕ)
      → contains fl us (rebuild_rows fl us rows flags i left x) r ≡ (
          if leb i r && (ltb r (i + left) && face_indexable (flags.at r))
          then true
          else contains fl us x r)
  unfolding rebuild_rows contains
  contains-rebuild_rows rows flags i zero x r = ground arith
  contains-rebuild_rows rows flags i (suc left) x r =
      elim (Bool-cases (face_indexable (flags.at i))) [
        | inl ok ↦ rw ok (
            ground (
              arith,
              contains-rebuild_rows rows flags (i + 1) left (us.add x i (rows.at i)) r,
              us.contains_add x i (rows.at i) r,
              ok,
            ))
        | inr out ↦ rw out (ground (arith, contains-rebuild_rows rows flags (i + 1) left x r, out))
      ]

  contains-rebuild_from :
      (rows : Table (List fl.Float)) (n : ℕ) (flags : Table ℕ) (r : ℕ)
      → contains fl us (rebuild_from fl us rows n flags) r
        ≡ (ltb r n && face_indexable (flags.at r))
  unfolding rebuild_from contains
  contains-rebuild_from rows n flags r =
      ground (arith, contains-rebuild_rows rows flags 0 n us.made r, us.contains_made r)

  indexed :
      (g : G fl us) (reindex : Bool)
      → ((r : ℕ)
          → contains fl us g.hnsw r
            ≡ (ltb r (min g.embs.size g.faces.size) && face_indexable (g.flags_cache.at r)))
      → (x : us.Index) × (index_if_empty fl us g reindex ≡ record g { hnsw = x })
        × ((r : ℕ) → contains fl us x r ≡ contains fl us g.hnsw r)
  unfolding index_if_empty
  indexed g reindex h =
      go (us.size g.hnsw == 0 && (ltb 0 (min g.embs.size g.faces.size) && not reindex))
    where
      made : us.Index
      made = rebuild_from fl us g.embs (min g.embs.size g.faces.size) g.flags_cache

      go :
          (b : Bool)
          → (x : us.Index) × ((if b then record g { hnsw = made } else g) ≡ record g { hnsw = x })
            × ((r : ℕ) → contains fl us x r ≡ contains fl us g.hnsw r)
      go true = (
        made,
        refl,
        λ r.
            contains-rebuild_from g.embs (min g.embs.size g.faces.size) g.flags_cache r ∙ sym (h r),
      )
      go false = (g.hnsw, refl, λ r. refl)

  module _ (g : G fl us) (s : IsSound fl us g) (room : g.faces.size < 2 ^ 32) where
    c : IsConsistent fl us g
    c = s.consistent

    lists : Table (List ℕ)
    lists = members_below g.faces g.faces.size (filled g.identities.size [])

    mirror : Table Bool
    mirror = hidden_below g.identities g.identities.size (filled g.identities.size false)

    -- The gallery that starts, with what it makes written out.
    started_as : Table (List ℤ) → Table (List fl.Float) → us.Index → G fl us
    started_as i8 norm x =
        record (identity_tables fl us (rebuild_maps fl us (record g { embs_i8 = i8 }))) {
          members = lists;
          centroid_norm = norm;
          hnsw = x;
        }

    -- The rows in two tables of one length.
    rows : min g.embs.size g.faces.size ≡ g.faces.size
    unfolding c
    rows = omega (arith, c.aligned.embs)

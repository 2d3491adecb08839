-- ===== src/Gallery/Curation.antt =====
-- Hiding and curation of identities: src/store/identity.cpp, set_identity_hidden to assign_face.
-- An identity from outside is an ℤ; `none` is nullopt.
pub mod Slots
pub mod Moves
pub mod Groups
pub mod Merge
pub mod Split
pub mod Sound
use hvax.Prelude.{
  ℕ, zero, suc, ◌+◌, ◌-◌, ◌^◌, Bool, true, false, not, ◌&&◌, Option, none, some, List, [], ◌∷◌,
  ◌++◌, ltb, leb, ◌==◌, if◌then◌else◌, ◌>>=◌, Table, put, length, take, count, ℤ, pos, negsuc, sort,
  unique,
}
use hvax.Floats.{Floats}
use hvax.Hnsw.{Usearch}
use hvax.Types.{
  FaceSlot, IdentitySlot, hidden_flag, pinned, has, set_flag, clear_flag, slot_live, face_indexable,
  u32,
}
use hvax.Gallery.State.{Gallery}
use hvax.Gallery.Identities.{
  identity_live, recompute_identity, new_identity, set_ref, unassign, assign,
}

-- kIdentityNameBytes - 1
abbrev name_bytes : ℕ
name_bytes = 63

-- The rows of `xs` that are not in `moving`.
unfoldable pub without : List ℕ → List ℕ → List ℕ
without moving [] = []
without moving (x ∷ xs) =
    let rest = without moving xs in if count x moving == 0 then x ∷ rest else rest

module _ (fl : Floats) (us : Usearch fl.Float) where
  open fl use {Float}
  open us use {Index}

  -- The row of a live identity.
  unfoldable pub live_identity : Gallery Float Index → ℤ → Option ℕ
  unfolding identity_live
  live_identity g (negsuc _) = none
  live_identity g (pos id) = if identity_live fl us g (pos id) then some id else none

  -- `flags |= kIdentityPinned`
  pub pin : Gallery Float Index → ℕ → Gallery Float Index
  pin g id = record g {
    identities =
        put g.identities id
          (record (g.identities.at id) { flags = set_flag pinned (g.identities.at id).flags });
  }

  -- `flags &= ~kIdentityPinned`
  pub unpin : Gallery Float Index → ℕ → Gallery Float Index
  unpin g id = record g {
    identities =
        put g.identities id
          (record (g.identities.at id) { flags = clear_flag pinned (g.identities.at id).flags });
  }

  pub hidden_flags : Bool → ℕ → ℕ
  hidden_flags true w = set_flag pinned (set_flag hidden_flag w)
  hidden_flags false w = clear_flag hidden_flag w

  -- The count is of 64 bits.
  pub hidden_count_after : Bool → Bool → ℕ → ℕ
  hidden_count_after true false n = if n == 2 ^ 64 - 1 then 0 else n + 1
  hidden_count_after false true n = if n == 0 then 2 ^ 64 - 1 else n - 1
  hidden_count_after _ _ n = n

  pub hide_row : Gallery Float Index → ℕ → Bool → ℕ → Gallery Float Index
  unfolding hidden_flags hidden_count_after
  hide_row g id hidden now =
      let s = g.identities.at id in
      record g {
        identities =
            put g.identities id
              (record s { flags = hidden_flags hidden s.flags; updated_at = now });
        hidden = put g.hidden id hidden;
        hidden_count = hidden_count_after hidden (has hidden_flag s.flags) g.hidden_count;
      }

  pub hide_at : Gallery Float Index → Option ℕ → Bool → ℕ → Bool × Gallery Float Index
  hide_at g none hidden now = (false, g)
  hide_at g (some id) hidden now = (true, hide_row g id hidden now)

  pub set_identity_hidden : Gallery Float Index → ℤ → Bool → ℕ → Bool × Gallery Float Index
  set_identity_hidden g identity_id hidden now = hide_at g (live_identity g identity_id) hidden now

  -- `faces_.at(r).identity_ref = ref` for each row of a list.
  unfoldable pub set_refs : Table (FaceSlot Float) → List ℕ → ℕ → Table (FaceSlot Float)
  set_refs faces [] ref = faces
  set_refs faces (r ∷ rows) ref = set_refs (set_ref fl us faces r ref) rows ref

  -- One round of the loop of merge_identities: the members of `src` go to `target`.
  pub absorb : Gallery Float Index → ℕ → ℕ → ℕ → Gallery Float Index
  absorb g target src now =
      let rows = g.members.at src in
      recompute_identity fl us
        (record g {
          faces = set_refs g.faces rows (suc target);
          members = put (put g.members target (g.members.at target ++ rows)) src [];
        })
        src now

  pub absorb_all : Gallery Float Index → ℕ → List ℕ → ℕ → Gallery Float Index
  absorb_all g target [] now = g
  absorb_all g target (src ∷ srcs) now = absorb_all (absorb g target src now) target srcs now

  -- The rows of the ids, if all of them are live.
  unfoldable pub live_rows : Gallery Float Index → List ℤ → Option (List ℕ)
  live_rows g [] = some []
  live_rows g (id ∷ ids) = do row ← live_identity g id; rows ← live_rows g ids; some (row ∷ rows)

  -- The ids in rising order, the least one the target.
  pub merge_rows : Gallery Float Index → List ℕ → ℕ → Option ℕ × Gallery Float Index
  merge_rows g (target ∷ src ∷ srcs) now = (
    some target,
    pin (recompute_identity fl us (absorb_all g target (src ∷ srcs) now) target now) target,
  )
  merge_rows g _ now = (none, g)

  pub merge_found : Gallery Float Index → Option (List ℕ) → ℕ → Option ℕ × Gallery Float Index
  merge_found g none now = (none, g)
  merge_found g (some rows) now = merge_rows g (unique (sort rows)) now

  -- Of the two early returns, both nullopt, the one for an id that is not live comes first here.
  pub merge_identities : Gallery Float Index → List ℤ → ℕ → Option ℕ × Gallery Float Index
  merge_identities g ids now = merge_found g (live_rows g ids) now

  -- The row of a face of identity `id`.
  unfoldable pub face_of_identity : Gallery Float Index → ℕ → ℤ → Option ℕ
  face_of_identity g id (negsuc _) = none
  face_of_identity g id (pos r) =
      if ltb r g.faces.size && (g.faces.at r).identity_ref == suc id then some r else none

  unfoldable pub moving_rows : Gallery Float Index → ℕ → List ℤ → Option (List ℕ)
  moving_rows g id [] = some []
  moving_rows g id (f ∷ fs) = do
    row ← face_of_identity g id f
    rows ← moving_rows g id fs
    some (u32 row ∷ rows)

  -- The part of split_identity behind its early returns.
  pub split_off : Gallery Float Index → ℕ → List ℕ → ℕ → Gallery Float Index
  split_off g id moving now =
      let nid = g.identities.size in
      let g₁ = new_identity fl us g now in
      let g₂ = record g₁ {
        faces = set_refs g₁.faces moving (suc nid);
        members =
            put (put g₁.members nid (g₁.members.at nid ++ moving)) id
              (without moving (g₁.members.at id));
      } in
      let g₃ = recompute_identity fl us (recompute_identity fl us g₂ id now) nid now in
      pin (pin g₃ id) nid

  pub split_rows : Gallery Float Index → ℕ → List ℕ → ℕ → Option ℕ × Gallery Float Index
  split_rows g id moving now =
      if leb (length (g.members.at id)) (length moving)
      then (none, g)
      else (some g.identities.size, split_off g id moving now)

  pub split_found : Gallery Float Index → ℕ → Option (List ℕ) → ℕ → Option ℕ × Gallery Float Index
  split_found g id none now = (none, g)
  split_found g id (some rows) now = split_rows g id (unique (sort rows)) now

  pub split_at : Gallery Float Index → Option ℕ → List ℤ → ℕ → Option ℕ × Gallery Float Index
  split_at g none face_ids now = (none, g)
  split_at g (some id) [] now = (none, g)
  split_at g (some id) (f ∷ fs) now = split_found g id (moving_rows g id (f ∷ fs)) now

  pub split_identity : Gallery Float Index → ℤ → List ℤ → ℕ → Option ℕ × Gallery Float Index
  split_identity g identity_id face_ids now = split_at g (live_identity g identity_id) face_ids now

  pub rename_row : Gallery Float Index → ℕ → List ℕ → ℕ → Gallery Float Index
  rename_row g id name now =
      let s = g.identities.at id in
      record g {
        identities = put g.identities id (record s {
          name = take name_bytes name;
          flags = set_flag pinned s.flags;
          updated_at = now;
        });
      }

  pub rename_at : Gallery Float Index → Option ℕ → List ℕ → ℕ → Bool × Gallery Float Index
  rename_at g none name now = (false, g)
  rename_at g (some id) name now = (true, rename_row g id name now)

  -- A name is its bytes up to the zeros behind it.
  pub rename_identity : Gallery Float Index → ℤ → List ℕ → ℕ → Bool × Gallery Float Index
  rename_identity g identity_id name now = rename_at g (live_identity g identity_id) name now

  pub dissolve_row : Gallery Float Index → ℕ → ℕ → Gallery Float Index
  dissolve_row g id now =
      unpin
        (recompute_identity fl us
          (record g { faces = set_refs g.faces (g.members.at id) 0; members = put g.members id [] })
          id now)
        id

  pub dissolve_at : Gallery Float Index → Option ℕ → ℕ → Bool × Gallery Float Index
  dissolve_at g none now = (false, g)
  dissolve_at g (some id) now = (true, dissolve_row g id now)

  pub dissolve_identity : Gallery Float Index → ℤ → ℕ → Bool × Gallery Float Index
  dissolve_identity g identity_id now = dissolve_at g (live_identity g identity_id) now

  -- An id that is negative takes the face out of its identity.
  pub assign_row : Gallery Float Index → ℕ → ℤ → ℕ → Bool × Gallery Float Index
  assign_row g row (negsuc _) now = (true, unassign fl us g row now)
  assign_row g row (pos id) now =
      if identity_live fl us g (pos id)
      then (true, pin (assign fl us g row id now) id)
      else (false, g)

  pub assign_face : Gallery Float Index → ℤ → ℤ → ℕ → Bool × Gallery Float Index
  assign_face g (negsuc _) identity_id now = (false, g)
  assign_face g (pos row) identity_id now =
      if ltb row g.faces.size && face_indexable (g.faces.at row).flags
      then assign_row g row identity_id now
      else (false, g)

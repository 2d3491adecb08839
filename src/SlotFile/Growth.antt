-- ===== src/SlotFile/Growth.antt =====
-- The invariant of an open file of records, and what the operations of mmap_slots.hpp keep of it.
use native.Mathlib.Nat.{mod-eq_of_lt, mul-le-mul_right}
use hvax.Prelude.{
  ℕ, ◌+◌, ◌*◌, ◌≤◌, ◌<◌, ◌≡◌, refl, arith, if◌then◌else◌, ◌==◌, Bool-cases, leb, inl, inr,
}
use hvax.SlotFile.{SlotFile, header_bytes, u64_mod, needed_bytes, grown, grow, place, append}

-- The records lie in the map, and the header on disk says what the object says.
pub record IsValid {ℓ} {T : Type ℓ} (magic rec_size : ℕ) (s : SlotFile T) : Type 0 where
  pub fits : s.count ≤ s.capacity
  pub mapped : header_bytes + s.capacity * rec_size ≤ s.map_size
  pub count_synced : s.header.count ≡ s.count
  pub capacity_synced : s.header.capacity ≡ s.capacity
  pub same_magic : s.magic ≡ magic
  pub same_rec_size : s.header.rec_size ≡ rec_size
  pub header_magic : s.header.magic ≡ magic

pub needed_bytes_exact :
    (capacity rec_size : ℕ)
    → header_bytes + capacity * rec_size < u64_mod
    → needed_bytes capacity rec_size ≡ header_bytes + capacity * rec_size
unfolding needed_bytes
needed_bytes_exact capacity rec_size h = omega arith

module _ {ℓ} {T : Type ℓ} (magic rec_size : ℕ) (s : SlotFile T) (v : IsValid magic rec_size s) where
  pub place-IsValid : (r : T) → s.count < s.capacity → IsValid magic rec_size (place s r)
  unfolding place
  place-IsValid r h = record {
    fits = omega arith;
    mapped = v.mapped;
    count_synced = refl;
    capacity_synced = v.capacity_synced;
    same_magic = v.same_magic;
    same_rec_size = v.same_rec_size;
    header_magic = v.header_magic;
  }

grown_room :
    (count capacity rec_size : ℕ)
    → 0 < rec_size
    → count ≤ capacity
    → header_bytes + (capacity * 2 + 1024) * rec_size < u64_mod
    → (count < grown capacity) × (grown capacity ≤ capacity * 2 + 1024)
unfolding grown
grown_room count capacity rec_size p fits small =
    let wide : capacity * 2 + 1024 ≤ (capacity * 2 + 1024) * rec_size = grind arith in
    ground (arith, mod-eq_of_lt {n = capacity * 2} {m = u64_mod} (omega (arith, wide)))

module _ {ℓ} {T : Type ℓ} (magic rec_size : ℕ) (s : SlotFile T) (v : IsValid magic rec_size s)
    (p : 0 < rec_size) (small : header_bytes + (s.capacity * 2 + 1024) * rec_size < u64_mod) where
  grow-IsValid : IsValid magic rec_size (grow rec_size s) × (s.count < (grow rec_size s).capacity)
  unfolding grow
  grow-IsValid =
      let room = grown_room s.count s.capacity rec_size p v.fits small in
      let area : grown s.capacity * rec_size ≤ (s.capacity * 2 + 1024) * rec_size =
        mul-le-mul_right rec_size room.1 in
      (
        record {
          fits = omega (arith, room.0);
          mapped =
              rw (needed_bytes_exact (grown s.capacity) rec_size (omega (arith, area)))
                (omega arith);
          count_synced = v.count_synced;
          capacity_synced = refl;
          same_magic = v.same_magic;
          same_rec_size = v.same_rec_size;
          header_magic = v.header_magic;
        },
        room.0,
      )

  -- Appending keeps the invariant, growing the file where it is full, as long as a file of twice
  -- the size still has a 64-bit size in bytes.
  pub append-IsValid : (r : T) → IsValid magic rec_size (append rec_size s r)
  unfolding append
  append-IsValid r = elim (Bool-cases (leb s.capacity s.count)) [
    | inl full ↦ rw full (
        place-IsValid magic rec_size (grow rec_size s) grow-IsValid.0 r
          (unfold grow in grow-IsValid.1))
    | inr room ↦ rw room (place-IsValid magic rec_size s v r (ground arith))
  ]

module _ {ℓ} {T : Type ℓ} (rec_size : ℕ) (s : SlotFile T) (r : T) where
  pub count-append : (append rec_size s r).count ≡ s.count + 1
  unfolding append
  count-append = ground arith

  -- The record appended stands at the old count, and every other row is as it was.
  pub recs-append : (i : ℕ) → (append rec_size s r).recs i ≡ (if i == s.count then r else s.recs i)
  unfolding append
  recs-append i = ground arith

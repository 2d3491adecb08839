-- ===== src/SlotFile/Opening.antt =====
-- What the validation in `SlotFile::open` accepts, and what a restart finds.
use hvax.Prelude.{ℕ, ◌+◌, ◌*◌, ◌≤◌, ◌<◌, ◌≡◌, refl, sym, ap, ◌∙◌, arith, ◌==◌, ltb, false, ==_iff}
use hvax.SlotFile.{SlotFile, DiskFile, ok, header_bytes, u64_mod, needed_bytes, open_slots, on_disk}
use hvax.SlotFile.Growth.{IsValid, needed_bytes_exact}

module _ {ℓ} {T : Type ℓ} (magic version rec_size : ℕ) where
  abbrev opened : DiskFile T → SlotFile T
  opened f = record {
    magic = magic;
    header = f.header;
    map_size = f.bytes;
    count = f.header.count;
    capacity = f.header.capacity;
    recs = f.recs;
  }

  opens :
      (f : DiskFile T)
      → header_bytes ≤ f.bytes
      → f.header.magic ≡ magic
      → f.header.rec_size ≡ rec_size
      → f.header.count ≤ f.header.capacity
      → needed_bytes f.header.capacity rec_size ≤ f.bytes
      → open_slots magic version rec_size f ≡ ok (opened f)
  unfolding open_slots
  opens f b m r c n = rw (nonempty, long, (==_iff _ _).1 m, (==_iff _ _).1 r, counted, room) refl
    where
      nonempty : (f.bytes == 0) ≡ false
      nonempty = ground arith

      long : ltb f.bytes header_bytes ≡ false
      long = ground arith

      counted : ltb f.header.capacity f.header.count ≡ false
      counted = ground arith

      room : ltb f.bytes (needed_bytes f.header.capacity rec_size) ≡ false
      room = ground arith

  -- A file that is closed and opened again is the file that it was: its header is accepted, and its
  -- records, count and capacity come back. The size in bytes has 64 bits.
  pub open_slots-on_disk :
      (s : SlotFile T)
      → IsValid magic rec_size s
      → s.map_size < u64_mod
      → open_slots magic version rec_size (on_disk s) ≡ ok s
  unfolding on_disk
  open_slots-on_disk s v h =
      opens (on_disk s) (omega (arith, v.mapped)) v.header_magic v.same_rec_size
        (rw (v.count_synced, v.capacity_synced) v.fits)
        (rw (v.capacity_synced, needed_bytes_exact s.capacity rec_size (omega (arith, v.mapped)))
          v.mapped)
      ∙ ap ok reopened
    where
      reopened : opened (on_disk s) ≡ s
      reopened i = record s {
        magic = sym v.same_magic i;
        count = v.count_synced i;
        capacity = v.capacity_synced i;
      }

  -- The tests that a file with a header passes, and what is built from it.
  accepts :
      (f : DiskFile T) (s : SlotFile T)
      → 0 < f.bytes
      → open_slots magic version rec_size f ≡ ok s
      → (f.header.magic ≡ magic)
        × (f.header.rec_size ≡ rec_size)
        × (f.header.count ≤ f.header.capacity)
        × (needed_bytes f.header.capacity rec_size ≤ f.bytes)
        × (s.map_size ≡ f.bytes)
        × (s.header ≡ f.header)
        × (s.count ≡ f.header.count)
        × (s.capacity ≡ f.header.capacity)
        × (s.magic ≡ magic)
  unfolding open_slots
  accepts f s b e = ground arith

  -- A file that is not empty and whose header names no more bytes than 64 bits hold is accepted only
  -- if all its records lie in the map; then the object and the header on disk agree.
  pub open_slots-IsValid :
      (f : DiskFile T) (s : SlotFile T)
      → 0 < f.bytes
      → header_bytes + f.header.capacity * rec_size < u64_mod
      → open_slots magic version rec_size f ≡ ok s
      → IsValid magic rec_size s
  open_slots-IsValid f s b h e =
      let (m, r, c, n, map, hd, ct, cap, mg) = accepts f s b e in
      let exact = needed_bytes_exact f.header.capacity rec_size h in
      record {
        fits = omega arith;
        mapped = rw (cap, map, ← exact) n;
        count_synced = cc;
        capacity_synced = cc;
        same_magic = mg;
        same_rec_size = cc;
        header_magic = cc;
      }

  -- The size test is made in 64 bits: a header whose record bytes are exactly 2^64 passes it in a
  -- file of any size from 4096 bytes on, and the opened object has records outside its map.
  pub open_slots_overflow :
      (f : DiskFile T)
      → f.header.magic ≡ magic
      → f.header.rec_size ≡ rec_size
      → f.header.count ≤ f.header.capacity
      → header_bytes ≤ f.bytes
      → f.bytes < u64_mod
      → f.header.capacity * rec_size ≡ u64_mod
      → (s : SlotFile T) × (open_slots magic version rec_size f ≡ ok s)
        × (s.map_size < header_bytes + s.capacity * rec_size)
  open_slots_overflow f hm hr hc hb small wraps =
      (opened f, opens f hb hm hr hc (unfold needed_bytes in rw wraps hb), omega arith)

-- ===== src/SlotFile.antt =====
-- include/hvax/util/mmap_slots.hpp: an append-only file of fixed-size records behind a memory map.
-- The mapped memory is a function from row numbers to records; `header` is what the file's first
-- page holds. The calls of the operating system (open, fstat, ftruncate, mmap, msync) succeed.
pub mod Growth
pub mod Opening
mod Tests
pub mod View
use hvax.Prelude.{ℕ, ◌+◌, ◌*◌, ◌%◌, ◌^◌, Bool, true, if◌then◌else◌, ltb, leb, ◌==◌, not, update}

pub record Header : Type 0 where
  pub magic : ℕ
  pub version : ℕ
  pub rec_size : ℕ
  pub count : ℕ
  pub capacity : ℕ

pub record SlotFile {ℓ} (T : Type ℓ) : Type ℓ where
  pub magic : ℕ
  pub header : Header
  pub map_size : ℕ
  pub count : ℕ
  pub capacity : ℕ
  pub recs : ℕ → T

-- What is on the disk before `open`: the size in bytes, the first page and the records behind it.
pub record DiskFile {ℓ} (T : Type ℓ) : Type ℓ where
  pub bytes : ℕ
  pub header : Header
  pub recs : ℕ → T

pub data OpenError : Type 0 where
  too_small bad_magic rec_size_mismatch corrupt_header truncated : OpenError

pub data OpenResult {ℓ} (A : Type ℓ) : Type ℓ where
  ok : A → OpenResult A
  err : OpenError → OpenResult A

abbrev pub header_bytes : ℕ
header_bytes = 4096

abbrev pub u64_mod : ℕ
u64_mod = 2 ^ 64

-- sizeof(SlotFileHeader) + capacity * sizeof(T), in size_t.
pub needed_bytes : ℕ → ℕ → ℕ
needed_bytes capacity rec_size = (header_bytes + (capacity * rec_size) % u64_mod) % u64_mod

-- The capacity after `grow`.
pub grown : ℕ → ℕ
grown capacity = let cap = (capacity * 2) % u64_mod in if ltb cap 1024 then 1024 else cap

module _ {ℓ} {T : Type ℓ} where
  -- The branch of an empty file: room for 1024 records, and a header.
  pub open_fresh : ℕ → ℕ → ℕ → (ℕ → T) → SlotFile T
  open_fresh magic version rec_size recs = record {
    magic = magic;
    header = record {
      magic = magic;
      version = version;
      rec_size = rec_size;
      count = 0;
      capacity = 1024;
    };
    map_size = needed_bytes 1024 rec_size;
    count = 0;
    capacity = 1024;
    recs = recs;
  }

  -- The branch of a file with bytes: the header is validated before it is believed.
  pub open_existing : ℕ → ℕ → DiskFile T → OpenResult (SlotFile T)
  open_existing magic rec_size f =
      let h = f.header in
      if ltb f.bytes header_bytes
      then err too_small
      else if not (h.magic == magic)
      then err bad_magic
      else if not (h.rec_size == rec_size)
      then err rec_size_mismatch
      else if ltb h.capacity h.count
      then err corrupt_header
      else if ltb f.bytes (needed_bytes h.capacity rec_size)
      then err truncated
      else ok (record {
        magic = magic;
        header = h;
        map_size = f.bytes;
        count = h.count;
        capacity = h.capacity;
        recs = f.recs;
      })

  pub open_slots : ℕ → ℕ → ℕ → DiskFile T → OpenResult (SlotFile T)
  unfolding open_fresh open_existing
  open_slots magic version rec_size f =
      if f.bytes == 0
      then ok (open_fresh magic version rec_size f.recs)
      else open_existing magic rec_size f

  pub set_version : SlotFile T → ℕ → SlotFile T
  set_version s v = record s { header = record s.header { version = v } }

  pub grow : ℕ → SlotFile T → SlotFile T
  unfolding grown
  grow rec_size s =
      let cap = grown s.capacity in
      record s {
        capacity = cap;
        map_size = needed_bytes cap rec_size;
        header = record s.header { capacity = cap };
      }

  -- Writes behind the last record, in a file that has room.
  pub place : SlotFile T → T → SlotFile T
  place s r = record s {
    recs = update s.recs s.count r;
    count = s.count + 1;
    header = record s.header { count = s.count + 1 };
  }

  -- The row number that `append` returns is the old count.
  pub append : ℕ → SlotFile T → T → SlotFile T
  unfolding grow place
  append rec_size s r = if leb s.capacity s.count then place (grow rec_size s) r else place s r

  pub clear : SlotFile T → SlotFile T
  clear s = record s { count = 0; header = record s.header { count = 0 } }

  pub sync_header : SlotFile T → SlotFile T
  sync_header s = record s { header = record s.header { count = s.count; capacity = s.capacity } }

  pub fsync_all : SlotFile T → SlotFile T
  fsync_all s = record s { header = record s.header { count = s.count } }

  -- What a later process finds on the disk.
  pub on_disk : SlotFile T → DiskFile T
  on_disk s = record { bytes = s.map_size; header = s.header; recs = s.recs }

-- ===== src/SlotFile/Tests.antt =====
-- Concrete files of 8-byte records and of 2048-byte records (mmap_slots.hpp).
use hvax.Prelude.{ℕ, ◌+◌, ◌*◌, ◌^◌, ◌<◌, ◌≡◌, refl, arith}
use hvax.SlotFile.{SlotFile, DiskFile, ok, header_bytes, open_slots, on_disk, append}
use hvax.SlotFile.Growth.{IsValid}
use hvax.SlotFile.Opening.{open_slots-on_disk, open_slots-IsValid, open_slots_overflow}

-- A full file with two records.
abbrev two_records : SlotFile ℕ
two_records = record {
  magic = 7;
  header = record { magic = 7; version = 1; rec_size = 8; count = 2; capacity = 2 };
  map_size = 4112;
  count = 2;
  capacity = 2;
  recs = λ i. i * 10;
}

two_records-IsValid : IsValid 7 8 two_records
two_records-IsValid = record {
  fits = omega arith;
  mapped = omega arith;
  count_synced = refl;
  capacity_synced = refl;
  same_magic = refl;
  same_rec_size = refl;
  header_magic = refl;
}

append_grows : (append 8 two_records 30).capacity ≡ 1024
unfolding append
append_grows = refl

open_slots-on_disk_example : open_slots 7 1 8 (on_disk two_records) ≡ ok two_records
open_slots-on_disk_example = open_slots-on_disk 7 1 8 two_records two_records-IsValid (omega arith)

open_slots-IsValid_example : IsValid 7 8 two_records
unfolding on_disk
open_slots-IsValid_example =
    open_slots-IsValid 7 1 8 (on_disk two_records) two_records (omega arith) (omega arith)
      (open_slots-on_disk 7 1 8 two_records two_records-IsValid (omega arith))

-- One page that claims 2^53 records of 2048 bytes.
abbrev huge_claim : DiskFile ℕ
huge_claim = record {
  bytes = 4096;
  header = record { magic = 7; version = 1; rec_size = 2048; count = 2 ^ 53; capacity = 2 ^ 53 };
  recs = λ i. 0;
}

open_slots_overflow_example :
    (s : SlotFile ℕ) × (open_slots 7 1 2048 huge_claim ≡ ok s)
    × (s.map_size < header_bytes + s.capacity * 2048)
open_slots_overflow_example =
    open_slots_overflow 7 1 2048 huge_claim refl refl (omega arith) (omega arith) (omega arith) refl

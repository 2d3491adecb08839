-- ===== src/SlotFile/View.antt =====
-- An open file of records (mmap_slots.hpp) as the table of its rows, which is what the gallery sees.
use hvax.Prelude.{Table}
use hvax.SlotFile.{SlotFile}

module _ {ℓ} {T : Type ℓ} where
  -- The rows below the count.
  abbrev pub view : SlotFile T → Table T
  view s = record { size = s.count; at = s.recs }

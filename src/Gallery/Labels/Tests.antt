-- ===== src/Gallery/Labels/Tests.antt =====
-- Labels applied to the small gallery, and its images marked.
use hvax.Prelude.{if◌then◌else◌, Table, ℤ, pos, negsuc, ◌==◌}

abbrev new_labels : Table ℤ
new_labels = record { size = 3; at = λ r. if r == 0 then pos 4 else negsuc 0 }

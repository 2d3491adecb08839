-- ===== src/Cluster/Tests.antt =====
-- A forest of four indices, and graphs of two and of three nodes.
use hvax.Prelude.{ℕ, ◌+◌, ◌≡◌, refl, Bool, true, Table, All, arith, ◌==◌, pos, if◌then◌else◌}
use hvax.Cluster.{find, unite, KnnGraph, CsrGraph, unique_edges, chinese_whispers}
use hvax.Cluster.Forest.{IsForest, top, up, Finds, find-Finds}
use hvax.Cluster.Union.{Joins, unite-Joins}
use hvax.Cluster.Labels.{Propagated, chinese_whispers-Propagated}
use hvax.Cluster.Order.{Rising}
use hvax.Cluster.Edges.{IsEdge, unique_edges-Rising}
use hvax.Examples.{hundredths}

-- 3 below 2 below 1, and 0 alone.
abbrev chain : Table ℕ
chain = record { size = 4; at = λ i. if i == 3 then 2 else (if i == 2 then 1 else i) }

chain-IsForest : IsForest chain
chain-IsForest x = ground arith

find-Finds_example : Finds chain 3 (find chain 3)
find-Finds_example = find-Finds chain 3 chain-IsForest

unite-Joins_example : Joins chain 1 0 (unite chain 3 0)
unite-Joins_example = unite-Joins chain 3 0 1 0 chain-IsForest (up (up (top refl))) (top refl)

-- Nodes 0 and 1 with an edge between them.
abbrev pair : CsrGraph ℕ
pair = record {
  offsets = record { size = 3; at = λ i. i };
  adj = record { size = 2; at = λ i. if i == 0 then 1 else 0 };
  w = record { size = 2; at = λ i. 90 };
}

abbrev own_label : Table ℕ
own_label = record { size = 2; at = λ i. i }

abbrev first_fixed : Table Bool
first_fixed = record { size = 2; at = λ i. i == 0 }

chinese_whispers-Propagated_example :
    Propagated hundredths
      (λ l. (j : ℕ) × (own_label.at j ≡ l))
      pair
      first_fixed
      own_label
      5
      (chinese_whispers hundredths pair own_label first_fixed (pos 5))
chinese_whispers-Propagated_example =
    chinese_whispers-Propagated hundredths pair own_label first_fixed 5

-- Three nodes, each with the next one as its neighbour, at 80 hundredths.
abbrev ring : KnnGraph ℕ
ring = record {
  n = 3;
  k = 1;
  nbr = record { size = 3; at = λ i. if i == 2 then 0 else i + 1 };
  sim = record { size = 3; at = λ i. 80 };
}

abbrev all_eligible : Table Bool
all_eligible = record { size = 3; at = λ i. true }

unique_edges-Rising_example :
    All (IsEdge hundredths ring 50 all_eligible) (unique_edges hundredths ring 50 all_eligible)
    × Rising hundredths (unique_edges hundredths ring 50 all_eligible)
unique_edges-Rising_example = unique_edges-Rising hundredths ring 50 all_eligible (omega arith)

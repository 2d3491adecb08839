-- ===== src/Cluster/Edges.antt =====
-- symmetrize_knn of src/identity/cluster.cpp: the edges that the graph is filled with.
use hvax.Prelude.{
  ℕ, zero, suc, ◌+◌, ◌-◌, ◌*◌, ◌^◌, Bool, true, false, not, ◌||◌, ◌≡◌, refl, sym, subst, ◌<◌, ◌≤◌,
  Option, none, some, List, [], Table, ltb, leb, ◌==◌, if◌then◌else◌, arith, min, max, All,
  append-All,
}
use hvax.Floats.{Floats}
use hvax.Types.{u32}
use hvax.Cluster.{KnnGraph, Edge, edge_of, push_edge, edges_of_node, edges_from, unique_edges}
use hvax.Cluster.Order.{Rising, sort_edges-Sorted, dedupe-Rising, sort_edges-All, dedupe-All}

module _ (fl : Floats) where
  open fl use {Float, lt}

  module _ (g : KnnGraph Float) (edge_min : Float) (eligible : Table Bool) where
    -- An edge between two nodes that are eligible, the lesser first, which is no loop; one of them
    -- has the other as a neighbour, with a similarity that is not below the bound.
    pub record IsEdge (e : Edge Float) : Type 0 where
      in_order : e.u < e.v
      inside : e.v < g.n
      eligible_u : eligible.at e.u ≡ true
      eligible_v : eligible.at e.v ≡ true
      near : lt e.w edge_min ≡ false
      node : ℕ
      place : ℕ
      place_inside : place < g.k
      u_is : e.u ≡ min node (g.nbr.at (node * g.k + place))
      v_is : e.v ≡ max node (g.nbr.at (node * g.k + place))
      w_is : e.w ≡ g.sim.at (node * g.k + place)

    eligible_end :
        (i v : ℕ) (b : Bool)
        → eligible.at i ≡ true
        → eligible.at v ≡ true
        → eligible.at (if b then i else v) ≡ true
    eligible_end i v true h k = h
    eligible_end i v false h k = k

    min_if : (i v : ℕ) → min i v ≡ (if ltb i v then i else v)
    min_if i v = ground arith

    max_if : (i v : ℕ) → max i v ≡ (if ltb v i then i else v)
    max_if i v = ground arith

    made-IsEdge :
        (i j : ℕ)
        → let v = g.nbr.at (i * g.k + j) in
          (v == i) ≡ false
          → i < g.n
          → v < g.n
          → j < g.k
          → eligible.at i ≡ true
          → eligible.at v ≡ true
          → lt (g.sim.at (i * g.k + j)) edge_min ≡ false
          → IsEdge (record { u = min i v; v = max i v; w = g.sim.at (i * g.k + j) })
    made-IsEdge i j other inside below_n jk h k near =
        let v = g.nbr.at (i * g.k + j) in
        record {
          in_order = ground (arith, other);
          inside = ground (arith, inside, below_n);
          eligible_u =
              subst (λ z. eligible.at z ≡ true) (sym (min_if i v)) (eligible_end i v (ltb i v) h k);
          eligible_v =
              subst (λ z. eligible.at z ≡ true) (sym (max_if i v)) (eligible_end i v (ltb v i) h k);
          near = near;
          node = i;
          place = j;
          place_inside = jk;
          u_is = refl;
          v_is = refl;
          w_is = refl;
        }

    abbrev Edged : Option (Edge Float) → Type 0
    Edged none = Unit
    Edged (some e) = IsEdge e

    u32_small : (i : ℕ) → i < 2 ^ 32 → u32 i ≡ i
    unfolding u32
    u32_small i h = omega (arith, h)

    edge_of-Edged :
        (i j : ℕ)
        → g.n ≤ 2 ^ 32
        → i < g.n
        → eligible.at i ≡ true
        → j < g.k
        → Edged (edge_of fl g edge_min eligible i j)
    unfolding edge_of
    edge_of-Edged i j small inside ok jk =
        go (v == 2 ^ 32 - 1) (v == i) refl (leb g.n v) refl (eligible.at v) refl (lt w edge_min)
          refl
      where
        v : ℕ
        v = g.nbr.at (i * g.k + j)

        w : Float
        w = g.sim.at (i * g.k + j)

        go :
            (a b : Bool)
            → (v == i) ≡ b
            → (c : Bool) → leb g.n v ≡ c
            → (d : Bool) → eligible.at v ≡ d
            → (e : Bool) → lt w edge_min ≡ e
            → Edged (
                if a || (b || (c || not d))
                then none
                else (if e
                    then none
                    else some (record { u = min (u32 i) v; v = max (u32 i) v; w = w })))
        go true b eb c ec d ed e ee = tt
        go false true eb c ec d ed e ee = tt
        go false false eb true ec d ed e ee = tt
        go false false eb false ec false ed e ee = tt
        go false false eb false ec true ed true ee = tt
        go false false eb false ec true ed false ee =
            subst (λ z. IsEdge (record { u = min z v; v = max z v; w = w }))
              (sym (u32_small i (omega (arith, small, inside))))
              (made-IsEdge i j eb inside (ground (arith, ec)) jk ok ed ee)

    push_edge-All :
        (e : Option (Edge Float)) (es : List (Edge Float))
        → Edged e
        → All IsEdge es
        → All IsEdge (push_edge fl e es)
    unfolding push_edge
    push_edge-All none es h k = k
    push_edge-All (some e) es h k = (h, k)

    edges_of_node-All :
        (i j left : ℕ)
        → g.n ≤ 2 ^ 32
        → i < g.n
        → eligible.at i ≡ true
        → j + left ≤ g.k
        → All IsEdge (edges_of_node fl g edge_min eligible i j left)
    unfolding edges_of_node
    edges_of_node-All i j zero small inside ok h = tt
    edges_of_node-All i j (suc left) small inside ok h =
        push_edge-All _ _ (edge_of-Edged i j small inside ok (omega (arith, h)))
          (edges_of_node-All i (j + 1) left small inside ok (omega (arith, h)))

    edges_from-All :
        (i left : ℕ)
        → g.n ≤ 2 ^ 32
        → i + left ≤ g.n
        → All IsEdge (edges_from fl g edge_min eligible i left)
    unfolding edges_from
    edges_from-All i zero small h = tt
    edges_from-All i (suc left) small h =
        append-All IsEdge _ _ (go (eligible.at i) refl)
          (edges_from-All (i + 1) left small (omega (arith, h)))
      where
        go :
            (b : Bool)
            → eligible.at i ≡ b
            → All IsEdge (if b then edges_of_node fl g edge_min eligible i 0 g.k else [])
        go true ok = edges_of_node-All i 0 g.k small (omega (arith, h)) ok (omega arith)
        go false none_here = tt

    -- Where the nodes fit 32 bits, the edges that the graph is filled with join eligible nodes of
    -- which one is a near neighbour of the other, none is a loop, and no pair stands twice.
    pub unique_edges-Rising :
        g.n ≤ 2 ^ 32
        → All IsEdge (unique_edges fl g edge_min eligible)
          × Rising fl (unique_edges fl g edge_min eligible)
    unfolding unique_edges
    unique_edges-Rising small = (
      dedupe-All fl IsEdge _
          (sort_edges-All fl IsEdge _ (edges_from-All 0 g.n small (omega arith))),
      dedupe-Rising fl _ (sort_edges-Sorted fl (edges_from fl g edge_min eligible 0 g.n)),
    )
